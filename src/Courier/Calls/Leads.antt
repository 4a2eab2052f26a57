-- ===== src/Courier/Calls/Leads.antt =====
-- Rules for what a handler's calls (packages/courier/src/api/v1) do to the database, whichever of
-- them fail.
use hurry.Prelude.{◌∷◌, Bool, true, false, Option, none, some, ◌≡◌, refl, sym, subst, if◌then◌else◌}
use hurry.Courier.Tables.{Db}
use hurry.Courier.Calls.{
  World, Exit, value, returned, failed, Call, query, execute, or_return, ◌>>=◌, ◌>>◌, require,
  log_audit_event, AuditRow, respond, tick, commit, follow, answer,
}

-- From the database `d`, the call leaves one that `P` holds of.
abbrev pub Leads : {R A : Type 0} → (Db → Type 0) → Db → Call R A → Type 0
Leads P d m = (w : World) → w.db ≡ d → P (m w).1.db

module _ (P : Db → Type 0) (d : Db) where
  -- What remains to be done writes nothing.
  pub stay : P d → (w : World) → w.db ≡ d → P w.db
  stay h w e = subst P (sym e) h

  pub if-Leads :
      {R A : Type 0} (b : Bool) (m n : Call R A)
      → (b ≡ true → Leads P d m)
      → (b ≡ false → Leads P d n)
      → Leads P d (if b then m else n)
  if-Leads true m n h k = h refl
  if-Leads false m n h k = k refl

  module _ {R A B : Type 0} (next : A → Call R B) (stays : P d) where
    pub query-Leads : (read : Db → A) → Leads P d (next (read d)) → Leads P d (query read >>= next)
    unfolding query ◌>>=◌
    query-Leads read h w e = reached (w.down w.calls)
      where
        reached :
            (b : Bool)
            → P (follow next (if b then (failed, tick w) else (value (read w.db), tick w))).1.db
        reached true = subst P (sym e) stays
        reached false = subst (λ x. P (next (read x) (tick w)).1.db) (sym e) (h (tick w) e)

    pub execute-Leads :
        (write : Db → Option (A × Db))
        → ((a : A) (d' : Db) → write d ≡ some (a, d') → Leads P d' (next a))
        → Leads P d (execute write >>= next)
    unfolding execute ◌>>=◌
    execute-Leads write h w e = reached (w.down w.calls)
      where
        written : (o : Option (A × Db)) → write d ≡ o → P (follow next (commit o w)).1.db
        written none q = subst P (sym e) stays
        written (some (a, d')) q = h a d' q (record (tick w) { db = d' }) refl

        reached :
            (b : Bool)
            → P (follow next (if b then (failed, tick w) else commit (write w.db) w)).1.db
        reached true = subst P (sym e) stays
        reached false = written (write w.db) (subst (λ x. write x ≡ write w.db) e refl)

    -- A write that breaks no constraint.
    pub update-Leads :
        (write : Db → Option (A × Db)) {a : A} {d' : Db}
        → write d ≡ some (a, d')
        → Leads P d' (next a)
        → Leads P d (execute write >>= next)
    unfolding execute ◌>>=◌
    update-Leads write {a} {d'} q h w e = reached (w.down w.calls)
      where
        reached :
            (b : Bool)
            → P (follow next (if b then (failed, tick w) else commit (write w.db) w)).1.db
        reached true = subst P (sym e) stays
        reached false =
            subst (λ o. P (follow next (commit o w)).1.db)
              (sym (subst (λ x. write x ≡ some (a, d')) (sym e) q))
              (h (record (tick w) { db = d' }) refl)

    pub or_return-Leads :
        (o : Option A) (r : R)
        → ((a : A) → o ≡ some a → Leads P d (next a))
        → Leads P d (or_return o r >>= next)
    unfolding or_return ◌>>=◌
    or_return-Leads none r h = λ w e. subst P (sym e) stays
    or_return-Leads (some a) r h = h a refl

  module _ {R B : Type 0} (next : Call R B) where
    pub require-Leads :
        (b : Bool) (r : R) → P d → (b ≡ true → Leads P d next) → Leads P d (require b r >> next)
    unfolding require ◌>>◌
    require-Leads true r stays h = h refl
    require-Leads false r stays h = λ w e. subst P (sym e) stays

    pub log-Leads : (row : AuditRow) → Leads P d next → Leads P d (log_audit_event row >> next)
    unfolding log_audit_event ◌>>◌
    log-Leads row h w e = reached (w.down w.calls)
      where
        reached :
            (b : Bool)
            → P (next (if b then tick w else record (tick w) { audit = row ∷ w.audit })).1.db
        reached true = h (tick w) e
        reached false = h (record (tick w) { audit = row ∷ w.audit }) e

  pub respond-Leads :
      {R : Type 0} (error : R) (m : Call R R)
      → Leads P d m
      → (w : World) → w.db ≡ d
      → P (respond error m w).1.db
  unfolding respond
  respond-Leads {R} error m h w e = ends (m w) (h w e)
    where
      ends : (x : Exit R R × World) → P x.1.db → P (answer error x).1.db
      ends (value r, w') k = k
      ends (returned r, w') k = k
      ends (failed, w') k = k

  pub bind-Leads :
      {R A B C : Type 0} (m : Call R A) (f : A → Call R B) (next : B → Call R C)
      → Leads P d (m >>= λ a. f a >>= next)
      → Leads P d ((m >>= f) >>= next)
  unfolding ◌>>=◌
  bind-Leads {R} {A} m f next h w e = ends (m w) (h w e)
    where
      ends :
          (x : Exit R A × World)
          → P (follow (λ a. f a >>= next) x).1.db
          → P (follow next (follow f x)).1.db
      ends (value a, w') k = k
      ends (returned r, w') k = k
      ends (failed, w') k = k
