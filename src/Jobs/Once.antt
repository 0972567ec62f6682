-- ===== src/Jobs/Once.antt =====
-- What one worker acquires, no other does (outbox.go).
use pontoqap.Base.{
  ℕ, zero, suc, ◌+◌, ◌≡◌, ◌≤◌, ◌<◌, Bool, List, [], ◌∷◌, ◌&&◌, ◌==◌, arith, if◌then◌else◌,
}
use pontoqap.Store.Schema.{Db}
use pontoqap.Store.Shop.{OutboxEvent}
use pontoqap.Store.Table.{select_where, count_where, update_where}
use pontoqap.Store.Table.Keys.{update_by}
use pontoqap.Jobs.{
  insert_by, order_by, limit, is_waiting, event_key, processing, mark_processing, is_due_event,
  acquire_outbox,
}

module _ {ℓ} {A : Type ℓ} (p : A → Bool) where
  pub count-insert_by :
      (key : A → ℕ) (a : A) (t : List A)
      → count_where p (insert_by key a t) ≡ (if p a then 1 else 0) + count_where p t
  unfolding count_where insert_by
  count-insert_by key a [] = omega arith
  count-insert_by key a (x ∷ xs) = ground (arith, count-insert_by key a xs)

  pub count-order_by : (key : A → ℕ) (t : List A) → count_where p (order_by key t) ≡ count_where p t
  unfolding count_where order_by
  count-order_by key [] = omega arith
  count-order_by key (x ∷ xs) =
      ground (arith, count-insert_by key x (order_by key xs), count-order_by key xs)

  pub count-limit : (n : ℕ) (t : List A) → count_where p (limit n t) ≤ count_where p t
  unfolding count_where limit
  count-limit zero t = omega arith
  count-limit (suc n) [] = omega arith
  count-limit (suc n) (x ∷ xs) = ground (arith, count-limit n xs)

  pub count-select :
      (q : A → Bool) (t : List A)
      → count_where p (select_where q t) ≡ count_where (λ r. p r && q r) t
  unfolding count_where select_where
  count-select q [] = omega arith
  count-select q (x ∷ xs) = ground (arith, count-select q xs)

-- The rows of an event, and those that wait.
abbrev pub is_event : ℕ → OutboxEvent → Bool
is_event k e = e.id == k

abbrev waits : ℕ → OutboxEvent → Bool
waits k e = e.id == k && is_waiting e.status

waits-processing :
    (k id : ℕ) (t : List OutboxEvent)
    → (count_where (waits k) (update_by event_key id processing t) ≤ count_where (waits k) t)
      × (id ≡ k → count_where (waits k) (update_by event_key id processing t) ≡ 0)
unfolding count_where update_where
waits-processing k id [] = ground arith
waits-processing k id (x ∷ xs) = ground (arith, waits-processing k id xs)

none_waits :
    (k : ℕ) (es t : List OutboxEvent)
    → (count_where (waits k) (mark_processing es t) ≤ count_where (waits k) t)
      × (0 < count_where (is_event k) es → count_where (waits k) (mark_processing es t) ≡ 0)
unfolding count_where mark_processing
none_waits k [] t = ground arith
none_waits k (e ∷ es) t =
    ground
      (arith, none_waits k es (update_by event_key e.id processing t), waits-processing k e.id t)

due-waits :
    (now k : ℕ) (t : List OutboxEvent)
    → count_where (λ r. is_event k r && is_due_event now r) t ≤ count_where (waits k) t
unfolding count_where
due-waits now k [] = omega arith
due-waits now k (x ∷ xs) = ground (arith, due-waits now k xs)

-- An event that one worker acquired is not among those that another one acquires next, whatever the
-- time and the limit.
pub acquire_outbox-once :
    (now n now' n' k : ℕ) (db : Db)
    → 0 < count_where (is_event k) (acquire_outbox now n db).0
    → count_where (is_event k) (acquire_outbox now' n' (acquire_outbox now n db).1).0 ≡ 0
unfolding acquire_outbox
acquire_outbox-once now n now' n' k db h =
    let p = is_event k in
    let q = is_due_event now' in
    let t = (acquire_outbox now n db).1.queue.outbox in
    let due = select_where q t in
    let key : OutboxEvent → ℕ = λ e. e.available_at in
    ground (
      arith,
      none_waits k (acquire_outbox now n db).0 db.queue.outbox,
      due-waits now' k t,
      count-select p q t,
      count-order_by p key due,
      count-limit p n' (order_by key due),
    )
