-- ===== src/Migrations/RoundTrip.antt =====
-- That a downgrade takes back what the upgrade did, for each revision and for all of them.
use pullfrog_azure.Prelude.{
  String, ◌≡◌, refl, ◌∙◌, ap, sym, Option, none, some, List, [], ◌∷◌, ◌++◌,
}
use pullfrog_azure.Migrations.{
  Table, Index, Statement, create_table, create_index, drop_table, drop_index, Operations, go_on,
  run, Revision,
}
use pullfrog_azure.Migrations.Revisions.{
  deployment_settings_table, admin_identity_table, oidc_login_attempt_table,
  oidc_login_attempt_index, admin_session_table, deployment_settings, admin_identity_sessions,
  revisions, upgrade_all, downgrade_all,
}

-- The statements that take back others, the last one first.
pub data Undoes : List Statement → List Statement → Type 0 where
  nothing : Undoes [] []
  drop_created_table :
      {xs ys : List Statement} (t : Table)
      → Undoes xs ys
      → Undoes (create_table t ∷ xs) (ys ++ drop_table t.name ∷ [])
  drop_created_index :
      {xs ys : List Statement} (i : Index)
      → Undoes xs ys
      → Undoes (create_index i ∷ xs) (ys ++ drop_index i.name i.table ∷ [])

-- Every revision comes after the one that it names, and its downgrade takes back its upgrade.
pub data IsChain : Option String → List Revision → Type 0 where
  head : {before : Option String} → IsChain before []
  next :
      {before : Option String} {r : Revision} {rs : List Revision}
      → r.down_revision ≡ before
      → Undoes r.upgrade r.downgrade
      → IsChain (some r.revision) rs
      → IsChain before (r ∷ rs)

module _ {Schema : Type 0} (o : Operations Schema) where
  go_on-eq-some :
      (m : Option Schema) (f : Schema → Option Schema) (s' : Schema)
      → go_on m f ≡ some s'
      → (s : Schema) × (m ≡ some s) × (f s ≡ some s')
  go_on-eq-some none f s' h = cc
  go_on-eq-some (some s) f s' h = (s, refl, h)

  go_on-go_on :
      (m : Option Schema) (f g : Schema → Option Schema)
      → go_on (go_on m f) g ≡ go_on m (λ s. go_on (f s) g)
  go_on-go_on none f g = refl
  go_on-go_on (some s) f g = refl

  run-append :
      (xs ys : List Statement) (s : Schema) → run o (xs ++ ys) s ≡ go_on (run o xs s) (run o ys)
  unfolding run
  run-append [] ys s = refl
  run-append (x ∷ xs) ys s =
      ap (go_on (o.execute x s)) (λ i t. run-append xs ys t i)
      ∙ sym (go_on-go_on (o.execute x s) (run o xs) (run o ys))

  -- one more statement at the end
  run-last :
      (ys : List Statement) (y : Statement) (s t u : Schema)
      → run o ys s ≡ some t
      → o.execute y t ≡ some u
      → run o (ys ++ y ∷ []) s ≡ some u
  unfolding run
  run-last ys y s t u h k =
      run-append ys (y ∷ []) s ∙ ap (λ m. go_on m (run o (y ∷ []))) h ∙ ap (λ m. go_on m some) k

  Undoes-run :
      {xs ys : List Statement} (s s' : Schema)
      → Undoes xs ys
      → run o xs s ≡ some s'
      → run o ys s' ≡ some s
  unfolding run
  Undoes-run s s' nothing h = sym h
  Undoes-run s s' (drop_created_table {xs} {ys} t u) h =
      let (m, e, k) = go_on-eq-some (o.execute (create_table t) s) (run o xs) s' h in
      run-last ys (drop_table t.name) s' m s (Undoes-run m s' u k) (o.table_undone t s m e)
  Undoes-run s s' (drop_created_index {xs} {ys} i u) h =
      let (m, e, k) = go_on-eq-some (o.execute (create_index i) s) (run o xs) s' h in
      run-last ys (drop_index i.name i.table) s' m s (Undoes-run m s' u k) (o.index_undone i s m e)

  IsChain-run :
      (before : Option String) (rs : List Revision) (s s' : Schema)
      → IsChain before rs
      → run o (upgrade_all rs) s ≡ some s'
      → run o (downgrade_all rs) s' ≡ some s
  unfolding run
  IsChain-run before [] s s' head h = sym h
  IsChain-run before (r ∷ rs) s s' (next _ u us) h =
      let (m, e, k) =
        go_on-eq-some (run o r.upgrade s) (run o (upgrade_all rs)) s'
          (sym (run-append r.upgrade (upgrade_all rs) s) ∙ h) in
      run-append (downgrade_all rs) r.downgrade s'
      ∙ ap (λ x. go_on x (run o r.downgrade)) (IsChain-run (some r.revision) rs m s' us k)
      ∙ Undoes-run s m u e

revisions-IsChain : IsChain none revisions
unfolding deployment_settings admin_identity_sessions
revisions-IsChain = next refl (drop_created_table deployment_settings_table nothing) (
    next refl
      (drop_created_table admin_identity_table (
        drop_created_table oidc_login_attempt_table (
          drop_created_index oidc_login_attempt_index
            (drop_created_table admin_session_table nothing))))
      head)

-- Where the database takes every statement of an upgrade to the head, it takes every statement of
-- the downgrade to the base that follows, and that restores the schema there was before.
pub downgrade_all-upgrade_all :
    {Schema : Type 0} (o : Operations Schema) (s s' : Schema)
    → run o (upgrade_all revisions) s ≡ some s'
    → run o (downgrade_all revisions) s' ≡ some s
downgrade_all-upgrade_all o s s' h = IsChain-run o none revisions s s' revisions-IsChain h
