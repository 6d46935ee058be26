-- ===== src/Common/VersionText.antt =====
-- app_print_version of common/common.c; the version that app_git_version returns is put in by the build.
use beastie_boy.Prelude.{◌∷◌, ◌++◌, [], CString}

-- `app_print_version`
unfoldable pub print_version : CString → CString → CString
print_version app_name git_version = app_name ++ (b' ' ∷ (git_version ++ (b'\n' ∷ [])))
