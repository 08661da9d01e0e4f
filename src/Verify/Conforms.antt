-- ===== src/Verify/Conforms.antt =====
-- verify/compare.py, `verify_process`: what a pass says of the path that the org took and of what it did.
use salesforce.Common.Dict.{Dict}
