-- ===== src/Samples/Sources.antt =====
-- An Apex source with both kinds of comments and a literal that looks like one.
use salesforce.Common.{◌≡◌, refl, some, codes}
use salesforce.Apex.{Source, strip_comments}
use salesforce.Apex.Comments.{
  machine, code, Blanked, strip_comments-machine, strip_comments-Blanked,
}

abbrev source : Source
source = codes "a = 'http://x'; // b\nc /*/ d\n*/ e"

stripped : strip_comments source ≡ some (codes "a = 'http://x';     \nc      \n   e")
unfolding strip_comments
stripped = refl

-- A backslash at the end of a literal that is not closed.
open_literal : strip_comments (codes "'a\\") ≡ some (codes "'a\\")
unfolding strip_comments
open_literal = refl

strip_comments-machine_example : strip_comments source ≡ some (machine code source)
strip_comments-machine_example = strip_comments-machine source

strip_comments-Blanked_example : (t : Source) × (strip_comments source ≡ some t) × Blanked source t
strip_comments-Blanked_example = strip_comments-Blanked source
