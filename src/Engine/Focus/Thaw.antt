-- ===== src/Engine/Focus/Thaw.antt =====
-- What the engine relies on when it thaws the foreground package, and what it then gives: the
-- kernel does not have the package frozen, whether or not it was in the table.
use sundown.Base.{
  ℕ, ◌≡◌, refl, Bool, true, false, some, Text, Instant, Bool-cases, inl, inr, contains_key, text_eq,
  remove,
}
use sundown.Engine.Focus.{focus_thaw, thaw_result, residual_result, thawed}
use sundown.Engine.State.{St, emit, profile_update}
use sundown.Engine.System.{System}

-- unfreezing a package that has a uid leaves no level of that uid frozen
pub record ThawLaws (system : System) : Type 0 where
  pub keep_oom :
      (pkg : Text) (uid : ℕ) (s : system.Sys)
      → system.pkg_uid pkg s ≡ some uid
      → system.uid_has_frozen_procs uid (system.unfreeze_pkg_keep_oom pkg s).1 ≡ false

module _ (system : System) (laws : ThawLaws system) where
  open system use {Sys, pkg_uid, uid_has_frozen_procs, unfreeze_pkg_keep_oom}

  thaw_result-sys :
      (pkg : Text) (now : Instant) (r : Bool × Sys) (st : St Sys)
      → (thaw_result system pkg now r st).sys ≡ r.1
  unfolding thaw_result thawed emit profile_update
  thaw_result-sys pkg now (true, s) st = refl
  thaw_result-sys pkg now (false, s) st = refl

  residual_result-sys :
      (pkg : Text) (now : Instant) (r : Bool × Sys) (st : St Sys)
      → (residual_result system pkg now r st).sys ≡ r.1
  unfolding residual_result thawed emit profile_update
  residual_result-sys pkg now (true, s) st = refl
  residual_result-sys pkg now (false, s) st = refl

  -- After the thaw of a focus event the package, if it has a uid, is not frozen in the kernel.
  pub focus_thaw-thaws :
      (pkg : Text) (uid : ℕ) (now : Instant) (st : St Sys)
      → pkg_uid pkg st.sys ≡ some uid
      → uid_has_frozen_procs uid (focus_thaw system pkg now st).sys ≡ false
  unfolding focus_thaw
  focus_thaw-thaws pkg uid now st h =
      let r = unfreeze_pkg_keep_oom pkg st.sys in
      let thaws = laws.keep_oom pkg uid st.sys h in
      let e = st.eng in
      elim (Bool-cases (contains_key pkg e.frozen)) [
        | inl b ↦
            rw
              (
                b,
                thaw_result-sys pkg now r
                    (record st { eng = record e { frozen = remove pkg e.frozen } }),
              )
              thaws
        | inr b ↦ elim (Bool-cases (uid_has_frozen_procs uid st.sys)) [
          | inl f ↦ rw (b, h, f, residual_result-sys pkg now r st) thaws
          | inr f ↦ rw (b, h, f) f
        ]
      ]
