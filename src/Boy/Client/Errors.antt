-- ===== src/Boy/Client/Errors.antt =====
-- boy_vapi_error_str of boy/vpp_client.c: the texts of the error codes in log messages.
use beastie_boy.Boy.Vpp.{
  VapiError, vapi_ok, einval, eagain, enotsup, enomem, enoresp, emap_fail, econ_fail, eincompatible,
  mutex_failure, euser, enotsock, eacces, econnreset, esock_failure, other,
}
use beastie_boy.Prelude.{
  Option, none, some, CString, codes, str_eq, List, [], ◌∷◌, if◌then◌else◌, ◌≡◌, refl, ap, sym, ◌∙◌,
}

-- `boy_vapi_error_str`
unfoldable pub vapi_error_str : VapiError → CString
vapi_error_str vapi_ok = codes "success"
vapi_error_str einval = codes "invalid argument"
vapi_error_str eagain = codes "operation would block"
vapi_error_str enotsup = codes "operation not supported"
vapi_error_str enomem = codes "out of memory"
vapi_error_str enoresp = codes "no response"
vapi_error_str emap_fail = codes "api mapping failure"
vapi_error_str econ_fail = codes "connection to VPP failed"
vapi_error_str eincompatible = codes "incompatible VPP API"
vapi_error_str mutex_failure = codes "mutex failure"
vapi_error_str euser = codes "user error"
vapi_error_str enotsock = codes "socket is not valid"
vapi_error_str eacces = codes "socket permission denied"
vapi_error_str econnreset = codes "connection reset by peer"
vapi_error_str esock_failure = codes "socket failure"
vapi_error_str other = codes "unknown vapi error"

abbrev all_errors : List VapiError
all_errors =
    vapi_ok ∷ einval ∷ eagain ∷ enotsup ∷ enomem ∷ enoresp ∷ emap_fail ∷ econ_fail ∷ eincompatible
    ∷ mutex_failure ∷ euser ∷ enotsock ∷ eacces ∷ econnreset ∷ esock_failure ∷ other ∷ []

-- The first error of a list that has a text.
find_error : List VapiError → CString → Option VapiError
find_error [] text = none
find_error (e ∷ errors) text =
    let rest = find_error errors text in if str_eq (vapi_error_str e) text then some e else rest

find_error-vapi_error_str : (e : VapiError) → find_error all_errors (vapi_error_str e) ≡ some e
unfolding find_error vapi_error_str str_eq
find_error-vapi_error_str vapi_ok = refl
find_error-vapi_error_str einval = refl
find_error-vapi_error_str eagain = refl
find_error-vapi_error_str enotsup = refl
find_error-vapi_error_str enomem = refl
find_error-vapi_error_str enoresp = refl
find_error-vapi_error_str emap_fail = refl
find_error-vapi_error_str econ_fail = refl
find_error-vapi_error_str eincompatible = refl
find_error-vapi_error_str mutex_failure = refl
find_error-vapi_error_str euser = refl
find_error-vapi_error_str enotsock = refl
find_error-vapi_error_str eacces = refl
find_error-vapi_error_str econnreset = refl
find_error-vapi_error_str esock_failure = refl
find_error-vapi_error_str other = refl

-- Two error codes with the same text are the same.
pub vapi_error_str-injective : (e e' : VapiError) → vapi_error_str e ≡ vapi_error_str e' → e ≡ e'
vapi_error_str-injective e e' h =
    let same =
      sym (find_error-vapi_error_str e)
      ∙ ap (find_error all_errors) h
      ∙ find_error-vapi_error_str e' in
    cc
