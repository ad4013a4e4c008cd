-- ===== src/Redfish/Middleware/Access.antt =====
-- Who reaches a handler behind the middlewares.
use qemu_bmc.Base.{
  ℕ, ◌≡◌, ◌≢◌, refl, sym, ap, ◌∙◌, Bytes, true, false, [], ◌∷◌, ◌++◌, none, some, ◌⊎◌, Bool-cases,
  inl, inr, bytes_eq, bytes_eq_iff, bytes_eq→eq, arith,
}
use mathlib.Core.Path.{subst}
use qemu_bmc.Bmc.Accounts.{delete_account}
use qemu_bmc.Bmc.Accounts.Create.{bytes_eq-false}
use qemu_bmc.Bmc.Accounts.Update.{delete_account_revokes}
use qemu_bmc.Bmc.Invariant.{HasShape, HasUniqueNames}
use qemu_bmc.Bmc.State.{State, slot}
use qemu_bmc.Redfish.Middleware.{
  HttpRequest, slash, ends_in_slash, without_last, unauthorized, Handler, is_public_path, trim_path,
  has_credentials, basic_auth_middleware, trailing_slash_middleware, with_middleware,
}

-- What becomes of a path: one slash at its end goes, unless the path is that slash alone.
pub data Trimmed : Bytes → Bytes → Type 0 where
  root : Trimmed (slash ∷ []) (slash ∷ [])
  dropped : (p : Bytes) → p ≢ [] → Trimmed (p ++ (slash ∷ [])) p
  as_it_is : (p : Bytes) → ((q : Bytes) → p ≢ q ++ (slash ∷ [])) → Trimmed p p

-- A path that ends in a slash has the rest in front of it, and the others have none.
ends_in_slash-split : (p : Bytes) → ends_in_slash p ≡ true → p ≡ without_last p ++ (slash ∷ [])
ends_in_slash-split [] h = absurd (ground arith)
ends_in_slash-split (c ∷ []) h = let e : c ≡ slash = ground arith in ap (λ x. x ∷ []) e
ends_in_slash-split (c ∷ d ∷ cs) h = ap (λ xs. c ∷ xs) (ends_in_slash-split (d ∷ cs) h)

ends_in_slash-append : (q : Bytes) → ends_in_slash (q ++ (slash ∷ [])) ≡ true
ends_in_slash-append [] = refl
ends_in_slash-append (c ∷ []) = refl
ends_in_slash-append (c ∷ d ∷ q) = ends_in_slash-append (d ∷ q)

trim_path-Trimmed : (p : Bytes) → Trimmed p (trim_path p)
unfolding trim_path
trim_path-Trimmed p = elim (Bool-cases (bytes_eq p (slash ∷ []))) [
  | inl alone ↦ rw (alone) (rw (bytes_eq→eq p (slash ∷ []) alone) root)
  | inr longer ↦ elim (Bool-cases (ends_in_slash p)) [
    | inl ends ↦
        let e : p ≡ without_last p ++ (slash ∷ []) = ends_in_slash-split p ends in
        let rest : without_last p ≢ [] = λ none_left.
          let whole : p ≡ slash ∷ [] = e ∙ ap (λ xs. xs ++ (slash ∷ [])) none_left in
          let same = (bytes_eq_iff p (slash ∷ [])).1 whole in cc in
        rw (longer, ends)
          (subst (λ x. Trimmed x (without_last p)) (sym e) (dropped (without_last p) rest))
    | inr plain ↦
        rw (longer, plain)
          (as_it_is p (λ q e.
            let ends : ends_in_slash p ≡ true = ap ends_in_slash e ∙ ends_in_slash-append q in cc))
  ]
]

without_last-append : (q : Bytes) → without_last (q ++ (slash ∷ [])) ≡ q
without_last-append [] = refl
without_last-append (c ∷ []) = refl
without_last-append (c ∷ d ∷ q) = ap (λ xs. c ∷ xs) (without_last-append (d ∷ q))

append_differs : (p : Bytes) → p ≢ [] → bytes_eq (p ++ (slash ∷ [])) (slash ∷ []) ≡ false
append_differs [] ne = absurd (ne refl)
append_differs (c ∷ []) ne = bytes_eq-false _ _ (λ e. cc)
append_differs (c ∷ d ∷ q) ne = bytes_eq-false _ _ (λ e. cc)

-- There is one such path.
pub trim_path_unique : {p q : Bytes} → Trimmed p q → trim_path p ≡ q
unfolding trim_path
trim_path_unique root = unfold bytes_eq in refl
trim_path_unique (dropped q ne) =
    rw (append_differs q ne, ends_in_slash-append q) (without_last-append q)
trim_path_unique (as_it_is p plain) = elim (Bool-cases (ends_in_slash p)) [
  | inl ends ↦ absurd (plain (without_last p) (ends_in_slash-split p ends))
  | inr no_slash ↦ elim (Bool-cases (bytes_eq p (slash ∷ []))) [
    | inl alone ↦ rw (alone) refl
    | inr longer ↦ rw (longer, no_slash) refl
  ]
]

abbrev pub MayPass : HttpRequest → Bytes → State → Type 0
MayPass r path s = (is_public_path path ≡ true) ⊎ (has_credentials s r.credentials ≡ true)

module _ {R : Type 0} (user pass : Bytes) (next : Handler R) where
  -- With a user and a password configured, a request for a public path or with credentials that
  -- authenticate reaches the handler, with its path less a slash at the end, which the path of that
  -- slash alone keeps; every other request is answered with 401, reaches no handler and changes
  -- nothing.
  pub with_middleware_guards :
      (r : HttpRequest) (s : State)
      → user ≢ []
      → pass ≢ []
      → (path : Bytes) × Trimmed r.path path
        × (MayPass r path s
            → with_middleware user pass next r s ≡ next (record r { path = path }) s)
        × (¬ (MayPass r path s) → with_middleware user pass next r s ≡ (s, unauthorized))
  unfolding with_middleware trailing_slash_middleware basic_auth_middleware
  with_middleware_guards r s u p =
      let on1 : bytes_eq user [] ≡ false = bytes_eq-false user [] u in
      let on2 : bytes_eq pass [] ≡ false = bytes_eq-false pass [] p in
      elim (Bool-cases (is_public_path (trim_path r.path))) [
        | inl open_path ↦ (
          trim_path r.path,
          trim_path-Trimmed r.path,
          λ may. rw (on1, on2, open_path),
          λ never. absurd (never (inl open_path)),
        )
        | inr closed ↦ elim (Bool-cases (has_credentials s r.credentials)) [
          | inl known ↦ (
            trim_path r.path,
            trim_path-Trimmed r.path,
            λ may. rw (on1, on2, closed, known),
            λ never. absurd (never (inr known)),
          )
          | inr unknown ↦ (
            trim_path r.path,
            trim_path-Trimmed r.path,
            λ may. elim may [ inl a ↦ cc | inr b ↦ cc ],
            λ never. rw (on1, on2, closed, unknown),
          )
        ]
      ]

  -- In a state of the right shape whose names are unique, and with a user and a password configured:
  -- once DeleteAccount has succeeded, a request with the name of the deleted account is answered with
  -- 401 on every path that is not public, whatever password comes with it.
  pub deleted_account_kept_out :
      (id : ℕ) (attempt : Bytes) (r : HttpRequest) (s : State)
      → user ≢ []
      → pass ≢ []
      → HasShape s
      → HasUniqueNames s
      → (delete_account id s).1 ≡ none
      → r.credentials ≡ some ((slot s id).name, attempt)
      → ((path : Bytes) → Trimmed r.path path → is_public_path path ≡ false)
      → let s' = (delete_account id s).0 in with_middleware user pass next r s' ≡ (s', unauthorized)
  unfolding has_credentials
  deleted_account_kept_out id attempt r s u p sh uniq done c closed =
      let (path, trimmed, pass_on, refuse) = with_middleware_guards r (delete_account id s).0 u p in
      refuse (λ may. elim may [
        | inl open_path ↦ let shut = closed path trimmed in cc
        | inr known ↦
            let revoked = (delete_account_revokes id s attempt sh uniq done).1 in
            let refused : has_credentials (delete_account id s).0 r.credentials ≡ false =
              rw (c) revoked in
            cc
      ])
