-- ===== src/Redfish/Middleware.antt =====
-- internal/redfish/middleware.go: the two middlewares in front of every handler, in the order in
-- which setupRoutes installs them. A handler works on the BMC state and answers with an `R`.
pub mod Access
use qemu_bmc.Base.{
  ℕ, Bytes, Bool, true, false, List, [], ◌∷◌, Option, none, some, bytes_eq, not, ◌==◌,
  if◌then◌else◌, ◌&&◌, ◌||◌,
}
use qemu_bmc.Base.Decimal.{ascii}
use qemu_bmc.Bmc.Accounts.{authenticate}
use qemu_bmc.Bmc.State.{State}

-- The path, and what r.BasicAuth() finds: `none` without a well-formed header.
pub record HttpRequest : Type 0 where
  pub path : Bytes
  pub credentials : Option (Bytes × Bytes)

-- 401, or the answer of the handler.
pub data Answer (R : Type 0) : Type 0 where
  unauthorized : Answer R
  answered : R → Answer R

abbrev pub Handler : Type 0 → Type 0
Handler R = HttpRequest → State → State × Answer R

-- The lookup in redfishPublicPaths.
unfoldable pub is_public_path : Bytes → Bool
is_public_path path =
    bytes_eq path (ascii "/redfish")
    || bytes_eq path (ascii "/redfish/v1")
    || bytes_eq path (ascii "/redfish/v1/odata")
    || bytes_eq path (ascii "/redfish/v1/$metadata")

abbrev pub slash : ℕ
slash = 47

-- strings.HasSuffix(path, "/")
abbrev pub ends_in_slash : Bytes → Bool
ends_in_slash [] = false
ends_in_slash (c ∷ []) = c == slash
ends_in_slash (c ∷ d ∷ cs) = ends_in_slash (d ∷ cs)

-- strings.TrimSuffix behind that test.
abbrev pub without_last : Bytes → Bytes
without_last [] = []
without_last (c ∷ []) = []
without_last (c ∷ d ∷ cs) = c ∷ without_last (d ∷ cs)

unfoldable pub trim_path : Bytes → Bytes
trim_path path =
    if not (bytes_eq path (slash ∷ [])) && ends_in_slash path then without_last path else path

-- `ok && s.users.Authenticate(user, pass)`
unfoldable pub has_credentials : State → Option (Bytes × Bytes) → Bool
has_credentials s none = false
has_credentials s (some (user, pass)) = authenticate s user pass

module _ {R : Type 0} where
  unfoldable pub basic_auth_middleware : Handler R → Handler R
  basic_auth_middleware next r s =
      if is_public_path r.path
      then next r s
      else if not (has_credentials s r.credentials)
      then (s, unauthorized)
      else next r s

  unfoldable pub trailing_slash_middleware : Handler R → Handler R
  trailing_slash_middleware next r s = next (record r { path = trim_path r.path }) s

  -- The chain of setupRoutes: without a configured user or password there is no authentication.
  unfoldable pub with_middleware : Bytes → Bytes → Handler R → Handler R
  with_middleware user pass next =
      if not (bytes_eq user []) && not (bytes_eq pass [])
      then trailing_slash_middleware (basic_auth_middleware next)
      else trailing_slash_middleware next
