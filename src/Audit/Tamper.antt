-- ===== src/Audit/Tamper.antt =====
-- The hash chain of src/quantforge/audit/log.py fixes the history: what a verified log's last hash says of
-- the whole log.
use quantforge_ai.Common.{
  suc, ◌≤◌, ◌≡◌, refl, sym, ap, ◌∙◌, Bool, String, List, [], ◌∷◌, ok, All, All-map, arith,
}
use quantforge_ai.Audit.Event.{EventBody, AuditEvent, AuditPlatform}
use quantforge_ai.Audit.Verify.{Cursor, move, start, check_chain}
use quantforge_ai.Audit.Chain.{Linked, Chain, check_chain-IsChain}

-- No event of one log has the hash of another event of the other log.
abbrev pub NoCollision : AuditPlatform → List AuditEvent → List AuditEvent → Type 0
NoCollision p xs ys =
    All
      (λ (x : AuditEvent).
        All (λ (y : AuditEvent). p.sha_event x.body ≡ p.sha_event y.body → x.body ≡ y.body) ys)
      xs

-- The last event of a log that is not empty
abbrev pub last_event : AuditEvent → List AuditEvent → AuditEvent
last_event e [] = e
last_event e (d ∷ es) = last_event d es

pub All-last_event {ℓ} :
    (P : AuditEvent → Type ℓ) (e : AuditEvent) (es : List AuditEvent)
    → All P (e ∷ es)
    → P (last_event e es)
All-last_event P e [] h = h.0
All-last_event P e (d ∷ es) h = All-last_event P d es h.1

earlier_position :
    (c : Cursor) (e d : AuditEvent)
    → (move c e).expected_sequence ≤ d.sequence
    → c.expected_sequence ≤ d.sequence
unfolding move
earlier_position c e d h = omega arith

Linked-last_event :
    (p : AuditPlatform) (c : Cursor) (e : AuditEvent) (es : List AuditEvent)
    → Chain p c (e ∷ es)
    → (c.expected_sequence ≤ (last_event e es).sequence)
      × (p.sha_event (last_event e es).body ≡ (last_event e es).current_event_hash)
Linked-last_event p c e [] (l, h) = (omega (arith, l.sequence), l.hash)
Linked-last_event p c e (d ∷ es) (l, h) =
    let (s, k) = Linked-last_event p (move c e) d es h in
    (earlier_position c e (last_event d es) s, k)

longer_log :
    (p : AuditPlatform) (c d : Cursor) (x y y' : AuditEvent) (ys : List AuditEvent)
    → NoCollision p (x ∷ []) (y ∷ y' ∷ ys)
    → c.expected_sequence ≡ d.expected_sequence
    → Linked p c x
    → Chain p (move d y) (y' ∷ ys)
    → x.current_event_hash ≡ (last_event y' ys).current_event_hash
    → ⊥
unfolding move
longer_log p c d x y y' ys n s l k h =
    let (later, hash) = Linked-last_event p (move d y) y' ys k in
    let same : x.body ≡ (last_event y' ys).body =
      All-last_event _ y' ys n.0.1 (l.hash ∙ (h ∙ sym hash)) in
    omega (arith, l.sequence, later, ap (λ (e : EventBody). e.sequence) same)

event_eq :
    (p : AuditPlatform) (c d : Cursor) (x y : AuditEvent)
    → Linked p c x
    → Linked p d y
    → (p.sha_event x.body ≡ p.sha_event y.body → x.body ≡ y.body)
    → x.current_event_hash ≡ y.current_event_hash
    → (x ≡ y) × (c.previous_hash ≡ d.previous_hash)
event_eq p c d x y l m inj h =
    let b : x.body ≡ y.body = inj (l.hash ∙ (h ∙ sym m.hash)) in
    (
      λ i. record { body = b i; current_event_hash = h i },
      sym l.previous ∙ (ap (λ (e : EventBody). e.previous_event_hash) b ∙ m.previous),
    )

flip_collision :
    (p : AuditPlatform) (xs : List AuditEvent) (y : AuditEvent)
    → NoCollision p xs (y ∷ [])
    → NoCollision p (y ∷ []) xs
flip_collision p xs y n = (All-map (λ x h e. sym (h.0 (sym e))) xs n, tt)

tail_collision :
    (p : AuditPlatform) (xs : List AuditEvent) (y : AuditEvent) (ys : List AuditEvent)
    → NoCollision p xs (y ∷ ys)
    → NoCollision p xs ys
tail_collision p xs y ys n = All-map (λ x h. h.1) xs n

next_position :
    (c d : Cursor) (x y : AuditEvent)
    → c.expected_sequence ≡ d.expected_sequence
    → (move c x).expected_sequence ≡ (move d y).expected_sequence
unfolding move
next_position c d x y s = ap suc s

hash_of_move :
    (c d : Cursor) (x y : AuditEvent)
    → (move c x).previous_hash ≡ (move d y).previous_hash
    → x.current_event_hash ≡ y.current_event_hash
unfolding move
hash_of_move c d x y h = h

started : (a b : String) → (start a).expected_sequence ≡ (start b).expected_sequence
unfolding start
started a b = refl

Chain-unique :
    (p : AuditPlatform) (c d : Cursor) (x : AuditEvent) (xs : List AuditEvent) (y : AuditEvent)
    (ys : List AuditEvent)
    → NoCollision p (x ∷ xs) (y ∷ ys)
    → c.expected_sequence ≡ d.expected_sequence
    → Chain p c (x ∷ xs)
    → Chain p d (y ∷ ys)
    → (last_event x xs).current_event_hash ≡ (last_event y ys).current_event_hash
    → (x ∷ xs ≡ y ∷ ys) × (c.previous_hash ≡ d.previous_hash)
Chain-unique p c d x [] y [] n s (l, _) (m, _) h =
    let (e, q) = event_eq p c d x y l m n.0.0 h in (ap (λ z. z ∷ []) e, q)
Chain-unique p c d x [] y (y' ∷ ys) n s (l, _) (m, k) h =
    absurd (longer_log p c d x y y' ys n s l k h)
Chain-unique p c d x (x' ∷ xs) y [] n s (l, k) (m, _) h =
    absurd (longer_log p d c y x x' xs (flip_collision p (x ∷ x' ∷ xs) y n) (sym s) m k (sym h))
Chain-unique p c d x (x' ∷ xs) y (y' ∷ ys) n s (l, k) (m, k') h =
    let (tails, hash) =
      Chain-unique p (move c x) (move d y) x' xs y' ys (tail_collision p (x' ∷ xs) y (y' ∷ ys) n.1)
        (next_position c d x y s) k k' h in
    let (e, q) = event_eq p c d x y l m n.0.0 (hash_of_move c d x y hash) in (λ i. e i ∷ tails i, q)

-- Two verified logs of which the last hashes are equal are the same log, events and all, unless
-- `canonical_sha256` has a collision between an event of one and an event of the other.
pub history_unique :
    (p : AuditPlatform) (require_complete : Bool) (x : AuditEvent) (xs : List AuditEvent)
    (y : AuditEvent) (ys : List AuditEvent)
    → NoCollision p (x ∷ xs) (y ∷ ys)
    → check_chain p require_complete (x ∷ xs) ≡ ok tt
    → check_chain p require_complete (y ∷ ys) ≡ ok tt
    → (last_event x xs).current_event_hash ≡ (last_event y ys).current_event_hash
    → x ∷ xs ≡ y ∷ ys
history_unique p b x xs y ys n hx hy h =
    (Chain-unique p (start x.case_id) (start y.case_id) x xs y ys n (started x.case_id y.case_id)
      (check_chain-IsChain p b (x ∷ xs) hx) (check_chain-IsChain p b (y ∷ ys) hy) h).0
