-- ===== src/Jobs/Marking.antt =====
-- What acquiring messages does to their attempts (outbox.go).
use pontoqap.Base.{
  ◌+◌, ◌≡◌, ◌≤◌, refl, Bool, false, not, ◌&&◌, ◌||◌, ltb, List, [], ◌∷◌, ◌==◌, arith,
}
use pontoqap.Store.Schema.{Db}
use pontoqap.Store.Shop.{OutboxEvent}
use pontoqap.Store.Table.{count_where, update_where}
use pontoqap.Store.Table.Keys.{update_by}
use pontoqap.Jobs.{is_waiting, event_key, processing, mark_processing}
use pontoqap.Jobs.Once.{is_event}

-- A row that was tried too often, or would be.
abbrev pub is_worn : OutboxEvent → Bool
is_worn e = ltb 6 e.attempts || (is_waiting e.status && ltb 5 e.attempts)

-- Every message was tried six times at most, and five times at most if it waits.
abbrev pub HasTriesLeft : Db → Type 0
HasTriesLeft db = count_where is_worn db.queue.outbox ≡ 0

-- A row of an event that has other attempts than were read, or more than one more.
abbrev pub differs : OutboxEvent → OutboxEvent → Bool
differs e r = r.id == e.id && not (r.attempts == e.attempts)

abbrev pub exceeds : OutboxEvent → OutboxEvent → Bool
exceeds e r = r.id == e.id && ltb (e.attempts + 1) r.attempts

unfoldable pub Read : List OutboxEvent → List OutboxEvent → Type 0
Read [] t = Unit
Read (e ∷ es) t = (count_where (differs e) t ≡ 0) × Read es t

unfoldable pub Tried : List OutboxEvent → List OutboxEvent → Type 0
Tried [] t = Unit
Tried (e ∷ es) t = (count_where (exceeds e) t ≡ 0) × Tried es t

-- Different events that may be tried once more.
unfoldable pub Fresh : List OutboxEvent → Type 0
Fresh [] = Unit
Fresh (e ∷ es) = (e.attempts ≤ 5) × (count_where (is_event e.id) es ≡ 0) × Fresh es

marked-worn :
    (e : OutboxEvent) (t : List OutboxEvent)
    → e.attempts ≤ 5
    → count_where (differs e) t ≡ 0
    → count_where is_worn t ≡ 0
    → (count_where is_worn (update_by event_key e.id processing t) ≡ 0)
      × (count_where (exceeds e) (update_by event_key e.id processing t) ≡ 0)
unfolding count_where update_where
marked-worn e [] h d w = ground arith
marked-worn e (x ∷ xs) h d w = ground (arith, marked-worn e xs h)

-- Marking one event leaves the rows of another alone.
marked-differs :
    (e e' : OutboxEvent) (t : List OutboxEvent)
    → (e'.id == e.id) ≡ false
    → (count_where (differs e') (update_by event_key e.id processing t)
        ≡ count_where (differs e') t)
      × (count_where (exceeds e') (update_by event_key e.id processing t)
          ≡ count_where (exceeds e') t)
unfolding count_where update_where
marked-differs e e' [] n = ground arith
marked-differs e e' (x ∷ xs) n = ground (arith, marked-differs e e' xs n)

marked-Read :
    (e : OutboxEvent) (es t : List OutboxEvent)
    → count_where (is_event e.id) es ≡ 0
    → Read es t
    → Read es (update_by event_key e.id processing t)
unfolding Read count_where
marked-Read e [] t n h = tt
marked-Read e (e' ∷ es) t n (h, hs) =
    (ground (arith, marked-differs e e' t), marked-Read e es t (ground arith) hs)

mark-exceeds :
    (e : OutboxEvent) (es t : List OutboxEvent)
    → count_where (is_event e.id) es ≡ 0
    → count_where (exceeds e) (mark_processing es t) ≡ count_where (exceeds e) t
unfolding count_where mark_processing
mark-exceeds e [] t n = refl
mark-exceeds e (e' ∷ es) t n =
    ground
      (arith, marked-differs e' e t, mark-exceeds e es (update_by event_key e'.id processing t))

pub mark-worn :
    (es t : List OutboxEvent)
    → Fresh es
    → Read es t
    → count_where is_worn t ≡ 0
    → (count_where is_worn (mark_processing es t) ≡ 0) × Tried es (mark_processing es t)
unfolding mark_processing Fresh Read Tried
mark-worn [] t f r w = (w, tt)
mark-worn (e ∷ es) t (few, apart, f) (same, r) w =
    let t' = update_by event_key e.id processing t in
    let (worn, exceeded) = marked-worn e t few same w in
    let (rest, tried) = mark-worn es t' f (marked-Read e es t apart r) worn in
    (rest, (ground (arith, mark-exceeds e es t' apart), tried))
