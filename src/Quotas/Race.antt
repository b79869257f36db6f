-- ===== src/Quotas/Race.antt =====
-- Reservations that run at the same time: `reserveSlot` reads a total in one query and raises the
-- counter in a later one, and the queries of several calls interleave.
use fsf_acreditation_backend.Base.{
  ℕ, ◌≤◌, ◌≡◌, refl, sym, ap, subst, true, some, List, [], ◌∷◌, ◌++◌, arith, nat_eq, All,
  All-update, All-both, All-map,
}
use fsf_acreditation_backend.Store.{
  Prisma, Database, or_throw, Uuid, MatchCategoryQuota, quota_key, quota_of,
}
use fsf_acreditation_backend.Quotas.Service.{add_one, has_room, reserve_slot}
use fsf_acreditation_backend.Quotas.Laws.{Distinct, Within, rows_once}
use fsf_acreditation_backend.Quotas.Invariant.{Distinct-update}

-- The quota and the total that a call has read, before its update.
pub record Pending : Type 0 where
  pub quota_id : Uuid
  pub total : ℕ

-- The rows, and the calls between their two queries.
pub record World : Type 0 where
  pub rows : List MatchCategoryQuota
  pub pending : List Pending

module _ (db : Prisma) where
  -- A call reads its quota; or a call that has read, whichever it is, updates.
  infix 40 ◌⟶◌
  pub data ◌⟶◌ : World → World → Type 0 where
    reads :
        {rows : List MatchCategoryQuota} {pending : List Pending} (m c : Uuid)
        {q : MatchCategoryQuota}
        → db.find_unique (quota_of m c) rows ≡ some q
        → record { rows = rows; pending = pending } ⟶ record {
          rows = rows;
          pending = record { quota_id = q.id; total = q.quota_total } ∷ pending;
        }
    writes :
        {rows : List MatchCategoryQuota} (before after : List Pending) (p : Pending)
        → record { rows = rows; pending = before ++ (p ∷ after) } ⟶ record {
          rows = db.update_rows (has_room p.quota_id p.total) add_one rows;
          pending = before ++ after;
        }

  infix 40 ◌⟶*◌
  pub data ◌⟶*◌ : World → World → Type 0 where
    stop : {w : World} → w ⟶* w
    step : {u v w : World} → u ⟶ v → v ⟶* w → u ⟶* w

  -- What a pending call has read is still the total of its quota.
  abbrev Current : List MatchCategoryQuota → Pending → Type 0
  Current rows p = All (λ r. quota_key p.quota_id r ≡ true → r.quota_total ≡ p.total) rows

  abbrev Good : World → Type 0
  Good w = Distinct w.rows × Within w.rows × All (Current w.rows) w.pending

  All-remove {ℓ κ} :
      {A : Type ℓ} (P : A → Type κ) (xs : List A) (y : A) (ys : List A)
      → All P (xs ++ (y ∷ ys))
      → P y × All P (xs ++ ys)
  All-remove P [] y ys a = a
  All-remove P (x ∷ xs) y ys a = let (b, c) = All-remove P xs y ys a.1 in (b, (a.0, c))

  write-Within :
      (p : Pending) (rows : List MatchCategoryQuota)
      → Within rows
      → Current rows p
      → Within (db.update_rows (has_room p.quota_id p.total) add_one rows)
  write-Within p rows within current =
      rw (db.update_rows_lem (has_room p.quota_id p.total) add_one rows) (
        All-map _ _ _ (λ r h. h.1)
          (All-update
            (λ r.
              (quota_key p.quota_id r ≡ true → r.quota_total ≡ p.total)
              × (r.consumed ≤ r.quota_total))
            (has_room p.quota_id p.total) add_one rows (λ r e h. (h.0, ground (arith, h.0)))
            (All-both _ _ rows current within)))

  write-Current :
      (p o : Pending) (rows : List MatchCategoryQuota)
      → Current rows o
      → Current (db.update_rows (has_room p.quota_id p.total) add_one rows) o
  write-Current p o rows current =
      rw (db.update_rows_lem (has_room p.quota_id p.total) add_one rows) (
        All-update (λ r. quota_key o.quota_id r ≡ true → r.quota_total ≡ o.total)
          (has_room p.quota_id p.total) add_one rows (λ r e h. h) current)

  ⟶-Good : {u v : World} → u ⟶ v → Good u → Good v
  ⟶-Good (reads {rows} m c {q = q} found) (distinct, within, current) = (
    distinct,
    within,
    (
      All-map _ _ rows (λ r h e. ap (λ x. x.quota_total) (h e))
          (rows_once db m c rows q distinct found),
      current,
    ),
  )
  ⟶-Good (writes {rows} before after p) (distinct, within, current) =
      let (mine, others) = All-remove (Current rows) before p after current in
      (
        Distinct-update db (has_room p.quota_id p.total) add_one rows (λ x. refl) distinct,
        write-Within p rows within mine,
        All-map _ _ (before ++ after) (λ o. write-Current p o rows) others,
      )

  -- From quotas with distinct identifiers and no counter above its total, and no call under way,
  -- no interleaving of the queries of any number of reservations, finished or not, brings a counter
  -- above its total.
  pub ⟶*-Within :
      {u v : World} → u ⟶* v → Distinct u.rows → Within u.rows → u.pending ≡ [] → Within v.rows
  ⟶*-Within path distinct within idle =
      (go path (distinct, within, subst (All (Current _)) (sym idle) tt)).1
    where
      go : {u v : World} → u ⟶* v → Good u → Good v
      go stop g = g
      go (step s p) g = go p (⟶-Good s g)

  -- A reservation with nothing between its queries is one such sequence of steps.
  pub reserve_slot-⟶* :
      (m c : Uuid) (s : Database) (q : MatchCategoryQuota)
      → db.find_unique (quota_of m c) s.quotas ≡ some q
      → record { rows = s.quotas; pending = [] }
        ⟶* record { rows = (reserve_slot db m c s).1.quotas; pending = [] }
  unfolding reserve_slot or_throw
  reserve_slot-⟶* m c s q found =
      let p : Pending = record { quota_id = q.id; total = q.quota_total } in
      let done : (reserve_slot db m c s).1.quotas
          ≡ db.update_rows (has_room q.id q.quota_total) add_one s.quotas =
        ground (arith, found) in
      rw done (step (reads m c found) (step (writes [] [] p) stop))
