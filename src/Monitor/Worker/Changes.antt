-- ===== src/Monitor/Worker/Changes.antt =====
-- The list of the changed keys in crates/qup-test-tui/src/network.rs: its members and its length.
use qup.Prelude.{
  ℕ, suc, ◌+◌, ◌≤◌, ◌≡◌, refl, inl, inr, Bool-cases, Bool, true, false, not, ◌&&◌, ◌||◌, [], ◌∷◌,
  ◌++◌, List, length, length-append, ◌==◌, arith,
}
use qup.Word.{contains}
use qup.Monitor.Worker.{enqueue_changed_key, enqueue_changed_keys}

-- No number stands twice.
unfoldable pub is_distinct : List ℕ → Bool
unfolding contains
is_distinct [] = true
is_distinct (x ∷ xs) = not (contains xs x) && is_distinct xs

pub contains-append :
    (xs ys : List ℕ) (k : ℕ) → contains (xs ++ ys) k ≡ (contains xs k || contains ys k)
unfolding contains
contains-append [] ys k = refl
contains-append (x ∷ xs) ys k = ground (arith, contains-append xs ys k)

pub contains-enqueue_changed_key :
    (pending : List ℕ) (keyref k : ℕ)
    → contains (enqueue_changed_key pending keyref) k ≡ (contains pending k || (keyref == k))
unfolding enqueue_changed_key contains
contains-enqueue_changed_key pending keyref k = elim (Bool-cases (contains pending keyref)) [
  | inl e ↦ rw e (ground (arith, e))
  | inr e ↦ rw (e, contains-append pending (keyref ∷ []) k) (ground arith)
]

-- After the keys are queued, those that were pending and those that are reported are pending, and no
-- others.
pub contains-enqueue_changed_keys :
    (pending keyrefs : List ℕ) (k : ℕ)
    → contains (enqueue_changed_keys pending keyrefs) k ≡ (contains pending k || contains keyrefs k)
unfolding enqueue_changed_keys contains
contains-enqueue_changed_keys pending [] k = ground arith
contains-enqueue_changed_keys pending (keyref ∷ keyrefs) k =
    rw
      (
        contains-enqueue_changed_keys (enqueue_changed_key pending keyref) keyrefs k,
        contains-enqueue_changed_key pending keyref k,
      )
      (ground arith)

is_distinct-snoc :
    (xs : List ℕ) (k : ℕ)
    → contains xs k ≡ false
    → is_distinct xs ≡ true
    → is_distinct (xs ++ k ∷ []) ≡ true
unfolding is_distinct contains
is_distinct-snoc [] k new h = refl
is_distinct-snoc (x ∷ xs) k new h =
    rw (contains-append xs (k ∷ []) x) (ground (arith, is_distinct-snoc xs k))

enqueue_changed_key-distinct :
    (pending : List ℕ) (keyref : ℕ)
    → is_distinct pending ≡ true
    → is_distinct (enqueue_changed_key pending keyref) ≡ true
unfolding enqueue_changed_key
enqueue_changed_key-distinct pending keyref h = elim (Bool-cases (contains pending keyref)) [
  | inl e ↦ rw e h
  | inr e ↦ rw e (is_distinct-snoc pending keyref e h)
]

-- Queueing keys never puts one twice into the list.
pub enqueue_changed_keys-distinct :
    (pending keyrefs : List ℕ)
    → is_distinct pending ≡ true
    → is_distinct (enqueue_changed_keys pending keyrefs) ≡ true
unfolding enqueue_changed_keys
enqueue_changed_keys-distinct pending [] h = h
enqueue_changed_keys-distinct pending (keyref ∷ keyrefs) h =
    enqueue_changed_keys-distinct (enqueue_changed_key pending keyref) keyrefs
      (enqueue_changed_key-distinct pending keyref h)

pub length-enqueue_changed_key :
    (pending : List ℕ) (keyref : ℕ)
    → length (enqueue_changed_key pending keyref) ≤ suc (length pending)
unfolding enqueue_changed_key
length-enqueue_changed_key pending keyref = ground (arith, length-append pending (keyref ∷ []))

pub length-enqueue_changed_keys :
    (pending keyrefs : List ℕ)
    → length (enqueue_changed_keys pending keyrefs) ≤ length pending + length keyrefs
unfolding enqueue_changed_keys
length-enqueue_changed_keys pending [] = omega arith
length-enqueue_changed_keys pending (keyref ∷ keyrefs) = omega (
  arith,
  length-enqueue_changed_keys (enqueue_changed_key pending keyref) keyrefs,
  length-enqueue_changed_key pending keyref,
)
