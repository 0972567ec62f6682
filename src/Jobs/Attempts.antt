-- ===== src/Jobs/Attempts.antt =====
-- No message is tried more than six times (outbox.go).
use pontoqap.Base.{
  ℕ, ◌+◌, ◌≡◌, ◌≤◌, refl, Bool, ◌&&◌, ltb, List, [], ◌∷◌, ◌==◌, arith, if◌then◌else◌, Bool-cases,
  inl, inr, ap,
}
use pontoqap.Store.Schema.{Db}
use pontoqap.Store.Shop.{OutboxEvent, JobStatus}
use pontoqap.Store.Table.{select_where, count_where, update_where}
use pontoqap.Store.Table.Keys.{update_by, IsUnique}
use pontoqap.Store.Table.Counts.{count_where-none}
use pontoqap.Jobs.{
  order_by, event_key, mark_processing, is_due_event, due_events, acquire_outbox, process_each,
  complete_outbox, fail_outbox, set_outbox, retry_delay, process_outbox,
}
use pontoqap.Jobs.Once.{is_event, count-order_by, count-limit, count-select}
use pontoqap.Jobs.Marking.{is_worn, HasTriesLeft, differs, exceeds, Read, Tried, Fresh, mark-worn}

same_event :
    (a b : ℕ) (t : List OutboxEvent)
    → a ≡ b
    → count_where (is_event a) t ≡ count_where (is_event b) t
same_event a b t e = ap (λ k. count_where (is_event k) t) e

-- What `FailOutbox` writes.
abbrev failed : ℕ → ℕ → OutboxEvent → OutboxEvent
failed now delay e = record e {
  status = (if delay == 0 then JobStatus.failed_job else JobStatus.waiting);
  available_at = now + delay;
}

due-le :
    (p : OutboxEvent → Bool) (now n : ℕ) (db : Db)
    → count_where p (due_events now n db)
      ≤ count_where (λ e. p e && is_due_event now e) db.queue.outbox
due-le p now n db =
    let t = db.queue.outbox in
    let due = select_where (is_due_event now) t in
    let key : OutboxEvent → ℕ = λ e. e.available_at in
    ground (
      arith,
      count-limit p n (order_by key due),
      count-order_by p key due,
      count-select p (is_due_event now) t,
    )

both-le :
    (p q : OutboxEvent → Bool) (t : List OutboxEvent)
    → count_where (λ e. p e && q e) t ≤ count_where p t
unfolding count_where
both-le p q [] = omega arith
both-le p q (x ∷ xs) = ground (arith, both-le p q xs)

few_tried :
    (now : ℕ) (t : List OutboxEvent)
    → count_where is_worn t ≡ 0
    → count_where (λ e. ltb 5 e.attempts && is_due_event now e) t ≡ 0
unfolding count_where
few_tried now [] w = refl
few_tried now (x ∷ xs) w = ground (arith, few_tried now xs)

-- The events of an outbox with unique identifiers, from those that each test meets.
one_event : (k : ℕ) (t : List OutboxEvent) → IsUnique event_key t → count_where (is_event k) t ≤ 1
unfolding count_where
one_event k [] u = omega arith
one_event k (x ∷ xs) (n, u) = elim (Bool-cases (x.id == k)) [
  | inl hit ↦ ground (arith, count_where-none (is_event x.id) xs n, same_event x.id k xs)
  | inr miss ↦ ground (arith, one_event k xs u)
]

-- What was read of one event is what the table has.
split-event :
    (e : OutboxEvent) (t : List OutboxEvent)
    → count_where (is_event e.id) t
      ≡ count_where (λ r. r.id == e.id && r.attempts == e.attempts) t + count_where (differs e) t
unfolding count_where
split-event e [] = omega arith
split-event e (x ∷ xs) = ground (arith, split-event e xs)

due-Read :
    (es t : List OutboxEvent)
    → IsUnique event_key t
    → ((p : OutboxEvent → Bool) → count_where p es ≤ count_where p t)
    → Read es t
unfolding Read count_where
due-Read [] t u le = tt
due-Read (e ∷ es) t u le = (
  ground (
    arith,
    le (λ r. r.id == e.id && r.attempts == e.attempts),
    split-event e t,
    one_event e.id t u,
  ),
  due-Read es t u (λ p. ground (arith, le p)),
)

due-Fresh :
    (es : List OutboxEvent)
    → ((k : ℕ) → count_where (is_event k) es ≤ 1)
    → count_where (λ e. ltb 5 e.attempts) es ≡ 0
    → Fresh es
unfolding Fresh count_where
due-Fresh [] one few = tt
due-Fresh (e ∷ es) one few = (
  ground arith,
  ground (arith, one e.id),
  due-Fresh es (λ k. ground (arith, one k)) (ground arith),
)

completed-worn :
    (id : ℕ) (t : List OutboxEvent)
    → count_where is_worn t ≡ 0
    → count_where is_worn (update_by event_key id (λ e. record e { status = JobStatus.done_job }) t)
      ≡ 0
unfolding count_where update_where
completed-worn id [] w = refl
completed-worn id (x ∷ xs) w = ground (arith, completed-worn id xs)

failed-worn :
    (now : ℕ) (e : OutboxEvent) (t : List OutboxEvent)
    → count_where (exceeds e) t ≡ 0
    → count_where is_worn t ≡ 0
    → count_where is_worn (update_by event_key e.id (failed now (retry_delay e)) t) ≡ 0
unfolding count_where update_where
failed-worn now e [] x w = refl
failed-worn now e (r ∷ rs) x w = ground (arith, failed-worn now e rs)

-- What changes no attempts leaves every event tried as often.
kept-exceeds :
    (id : ℕ) (f : OutboxEvent → OutboxEvent) (e : OutboxEvent) (t : List OutboxEvent)
    → ((r : OutboxEvent) → ((f r).id ≡ r.id) × ((f r).attempts ≡ r.attempts))
    → count_where (exceeds e) (update_by event_key id f t) ≡ count_where (exceeds e) t
unfolding count_where update_where
kept-exceeds id f e [] h = refl
kept-exceeds id f e (x ∷ xs) h = ground (arith, h x, kept-exceeds id f e xs h)

kept-Tried :
    (id : ℕ) (f : OutboxEvent → OutboxEvent) (es t : List OutboxEvent)
    → ((r : OutboxEvent) → ((f r).id ≡ r.id) × ((f r).attempts ≡ r.attempts))
    → Tried es t
    → Tried es (update_by event_key id f t)
unfolding Tried
kept-Tried id f [] t h x = tt
kept-Tried id f (e ∷ es) t h (x, xs) =
    (ground (arith, kept-exceeds id f e t h), kept-Tried id f es t h xs)

process_each-HasTriesLeft :
    (handle : ℕ → Bool) (now : ℕ) (es : List OutboxEvent) (db : Db)
    → Tried es db.queue.outbox
    → HasTriesLeft db
    → HasTriesLeft (process_each handle now es db)
unfolding process_each Tried complete_outbox fail_outbox
process_each-HasTriesLeft handle now [] db x w = w
process_each-HasTriesLeft handle now (e ∷ es) db (x, xs) w = elim (Bool-cases (handle e.content)) [
  | inl taken ↦
      rw (process_each, taken)
        (process_each-HasTriesLeft handle now es (complete_outbox e.id db)
          (kept-Tried e.id (λ r. record r { status = JobStatus.done_job }) es db.queue.outbox
            (λ r. (refl, refl)) xs)
          (completed-worn e.id db.queue.outbox w))
  | inr refused ↦
      rw (process_each, refused)
        (process_each-HasTriesLeft handle now es (fail_outbox now e.id (retry_delay e) db)
          (kept-Tried e.id (failed now (retry_delay e)) es db.queue.outbox (λ r. (refl, refl)) xs)
          (failed-worn now e db.queue.outbox x w))
]

-- A tick over an outbox with unique identifiers keeps this: no message was tried more than six times,
-- and none that waits more than five times, whatever the handler of messages does with them.
pub process_outbox-HasTriesLeft :
    (handle : ℕ → Bool) (now n : ℕ) (db : Db)
    → IsUnique event_key db.queue.outbox
    → HasTriesLeft db
    → HasTriesLeft (process_outbox handle now n db)
unfolding process_outbox acquire_outbox
process_outbox-HasTriesLeft handle now n db u w =
    let t = db.queue.outbox in
    let es = due_events now n db in
    let le : (p : OutboxEvent → Bool) → count_where p es ≤ count_where p t =
      λ p. ground (arith, due-le p now n db, both-le p (is_due_event now) t) in
    let fresh : Fresh es =
      due-Fresh es (λ k. ground (arith, le (is_event k), one_event k t u))
        (ground (arith, due-le (λ e. ltb 5 e.attempts) now n db, few_tried now t w)) in
    let (worn, tried) = mark-worn es t fresh (due-Read es t u le) w in
    process_each-HasTriesLeft handle now es (set_outbox (mark_processing es t) db) tried worn
