-- ===== src/Config/Roles.antt =====
-- What a role gets from `loadConfig`: the checked values, and the accessors that rely on it.
use api_proxy.Base.{
  ◌≡◌, ◌↔◌, ◌⊎◌, inl, inr, refl, sym, ap, ◌∙◌, false, not, ◌&&◌, Text, Option, none, some, is_some,
  List, [], ◌∷◌, Result, ok, err, Bool-cases, arith,
}
use api_proxy.Config.{Role, Env, Number, Config}
use api_proxy.Config.Fields.{parse_env}
use api_proxy.Config.Checks.{refinement_issues}
use api_proxy.Config.Ladder.{IsLadder, IsDeployable, refinement_issues-nil}
use api_proxy.Config.Load.{
  Requirement, is_missing, missing_among, missing_for_role, required_by_role, invalid, missing_for,
  refine, safe_parse, for_role, load_config,
}

abbrev Given : Option Text → Type 0
Given o = (t : Text) × (o ≡ some t)

-- What the tasks of a role rely on.
abbrev pub IsEquipped : Role → Config → Type 0
IsEquipped Role.api c =
    Given c.persistence.table_name × (Given c.auth.secret_id ⊎ Given c.auth.inline_keys)
IsEquipped Role.worker c = Given c.persistence.table_name × Given c.provider.base_url
IsEquipped Role.publisher c =
    Given c.persistence.table_name
    × Given c.messaging.start_queue_url
    × Given c.messaging.step_queue_url
IsEquipped Role.reconciler c =
    Given c.persistence.table_name
    × Given c.messaging.start_queue_url
    × Given c.messaging.step_queue_url

given : (o : Option Text) → not (is_some o) ≡ false → Given o
given none h = cc
given (some t) h = (t, refl)

given-missing : (o : Option Text) → Given o → not (is_some o) ≡ false
given-missing o (t, e) = rw e refl

either_given :
    (o p : Option Text) → (not (is_some o) && not (is_some p)) ≡ false → Given o ⊎ Given p
either_given (some t) p h = inl (t, refl)
either_given none (some t) h = inr (t, refl)
either_given none none h = cc

either_given-missing :
    (o p : Option Text) → Given o ⊎ Given p → (not (is_some o) && not (is_some p)) ≡ false
either_given-missing o p (inl (t, e)) = rw e refl
either_given-missing o p (inr (t, e)) = ground arith

abbrev NoneMissing : Config → List Requirement → Type 0
NoneMissing c [] = Unit {0}
NoneMissing c (r ∷ rs) = (is_missing c r ≡ false) × NoneMissing c rs

missing_among-nil :
    (c : Config) (rs : List Requirement) → (missing_among c rs ≡ []) ↔ NoneMissing c rs
unfolding missing_among
missing_among-nil c [] = (λ h. tt, λ h. refl)
missing_among-nil c (r ∷ rs) =
    let (p, q) = missing_among-nil c rs in
    elim (Bool-cases (is_missing c r)) [
      | inl gone ↦ (λ h. absurd (ground arith), λ h. absurd (ground arith))
      | inr here ↦ rw here (λ h. (refl, p h), λ h. q h.1)
    ]

queues_given :
    (c : Config)
    → (missing_among c (required_by_role Role.publisher) ≡ []) ↔ IsEquipped Role.publisher c
unfolding required_by_role is_missing
queues_given c =
    let (p, q) = missing_among-nil c (required_by_role Role.publisher) in
    (
      λ h. let (a, (b, (d, _))) = p h in (given _ a, given _ b, given _ d),
      λ h. q (given-missing _ h.0, (given-missing _ h.1, (given-missing _ h.2, tt))),
    )

missing_for_role-nil :
    (role : Role) (c : Config) → (missing_for_role role c ≡ []) ↔ IsEquipped role c
unfolding missing_for_role required_by_role is_missing
missing_for_role-nil Role.api c =
    let (p, q) = missing_among-nil c (required_by_role Role.api) in
    (
      λ h. let (a, (b, _)) = p h in (given _ a, either_given _ _ b),
      λ h. q (given-missing _ h.0, (either_given-missing _ _ h.1, tt)),
    )
missing_for_role-nil Role.worker c =
    let (p, q) = missing_among-nil c (required_by_role Role.worker) in
    (
      λ h. let (a, (b, _)) = p h in (given _ a, given _ b),
      λ h. q (given-missing _ h.0, (given-missing _ h.1, tt)),
    )
missing_for_role-nil Role.publisher c = queues_given c
missing_for_role-nil Role.reconciler c = queues_given c

-- A value is let through exactly if there are no issues.
passed_iff :
    {X E : Type 0} (issues : List X) (mk : X → List X → E) (c d : Config)
    → let checked : Result E Config = elim issues [ [] ↦ ok c | x ∷ xs ↦ err (mk x xs) ] in
      (checked ≡ ok d) ↔ ((c ≡ d) × (issues ≡ []))
passed_iff [] mk c d = (λ h. ground arith, λ h. ap ok h.0)
passed_iff (x ∷ xs) mk c d = (λ h. cc, λ h. cc)

refine_ok : (c d : Config) → (refine c ≡ ok d) ↔ ((c ≡ d) × IsLadder d × IsDeployable d.env d)
unfolding refine
refine_ok c d =
    let (p, q) = passed_iff (refinement_issues c) (λ v vs. v ∷ vs) c d in
    (
      λ h.
          let (same, e) = p h in
          let (l, y) = (refinement_issues-nil d).0 (ap refinement_issues (sym same) ∙ e) in
          (same, l, y),
      λ h. q (h.0, ap refinement_issues h.0 ∙ (refinement_issues-nil d).1 (h.1, h.2)),
    )

for_role_ok :
    (role : Role) (c d : Config) → (for_role role c ≡ ok d) ↔ ((c ≡ d) × IsEquipped role d)
unfolding for_role
for_role_ok role c d =
    let (p, q) = passed_iff (missing_for_role role c) (λ r rs. missing_for role (r ∷ rs)) c d in
    (
      λ h.
          let (same, e) = p h in
          (same, (missing_for_role-nil role d).0 (ap (missing_for_role role) (sym same) ∙ e)),
      λ h. q (h.0, ap (missing_for_role role) h.0 ∙ (missing_for_role-nil role d).1 h.1),
    )

followed_iff :
    {A B E F : Type 0} (r : Result E A) (f : A → Result F B) (g : E → F) (b : B)
    → let done : Result F B = elim r [ ok a ↦ f a | err e ↦ err (g e) ] in
      (done ≡ ok b) ↔ ((a : A) × (r ≡ ok a) × (f a ≡ ok b))
followed_iff (ok a) f g b =
    (λ h. (a, refl, h), λ h. let (x, e, k) = h in let same : a ≡ x = ground arith in ap f same ∙ k)
followed_iff (err e) f g b = (λ h. cc, λ h. let (x, k, _) = h in cc)

module _ (coerce_number : Text → Number) (env : Env) where
  safe_parse_ok :
      (c : Config)
      → (safe_parse coerce_number env ≡ ok c)
        ↔ ((parse_env coerce_number env ≡ ok c) × IsLadder c × IsDeployable c.env c)
  unfolding safe_parse
  safe_parse_ok c =
      let (p, q) = followed_iff (parse_env coerce_number env) refine (λ vs. vs) c in
      (
        λ h.
            let (a, e, k) = p h in let (same, l, y) = (refine_ok a c).0 k in (e ∙ ap ok same, l, y),
        λ h. q (c, h.0, (refine_ok c c).1 (refl, h.1, h.2)),
      )

  -- A role is configured exactly if every variable meets its schema, the ladder of timeouts stands,
  -- nothing that only `local` may have is set elsewhere, and what the role relies on is given; and
  -- then it gets the values that were parsed.
  pub load_config_iff :
      (role : Role) (c : Config)
      → (load_config coerce_number role env ≡ ok c) ↔ (
          (parse_env coerce_number env ≡ ok c)
          × IsLadder c
          × IsDeployable c.env c
          × IsEquipped role c)
  unfolding load_config
  load_config_iff role c =
      let (p, q) = followed_iff (safe_parse coerce_number env) (for_role role) invalid c in
      (
        λ h.
            let (a, e, k) = p h in
            let (same, eq) = (for_role_ok role a c).0 k in
            let (parsed, l, y) = (safe_parse_ok c).0 (e ∙ ap ok same) in (parsed, l, y, eq),
        λ h. q (c, (safe_parse_ok c).1 (h.0, h.1, h.2), (for_role_ok role c c).1 (refl, h.3)),
      )
