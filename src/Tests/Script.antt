-- ===== src/Tests/Script.antt =====
-- A stream whose peer sends a fixed script of bytes, and keeps what it is sent.
use qup.Prelude.{
  ℕ, zero, suc, ◌+◌, ◌≤◌, ◌≡◌, refl, sym, ap, ◌∙◌, inl, inr, Bool-cases, [], ◌∷◌, ◌++◌, Bytes,
  Result, ok, err, take, drop, length, length-append, Option, none, length-take, leb, if◌then◌else◌,
  arith,
}
use qup.Word.{AllBytes}
use qup.Client.Session.{ByteStream}
use qup.Monitor.Link.{IsForward}

pub record Peer : Type 0 where
  pub position : ℕ
  pub received : Bytes

abbrev script_read : Bytes → ℕ → Peer → Result Bytes (Unit {0}) × Peer
script_read script n peer =
    if leb n (length (drop peer.position script))
    then (ok (take n (drop peer.position script)), record peer { position = peer.position + n })
    else (err tt, peer)

suc_plus : (p n : ℕ) → suc p + n ≡ suc (p + n)
suc_plus p n = omega arith

take_nil : (n : ℕ) → take {A = ℕ} n [] ≡ []
take_nil zero = refl
take_nil (suc n) = refl

take_more : (p n : ℕ) (xs : Bytes) → take (p + n) xs ≡ take p xs ++ take n (drop p xs)
take_more zero n xs = ap (λ k. take k xs) plus_zero
  where
    plus_zero : 0 + n ≡ n
    plus_zero = omega arith
take_more (suc p) n [] = take_nil (suc p + n) ∙ sym (take_nil n)
take_more (suc p) n (x ∷ xs) = rw (suc_plus p n) (ap (λ t. x ∷ t) (take_more p n xs))

AllBytes-part : (p n : ℕ) (xs : Bytes) → AllBytes xs → AllBytes (take n (drop p xs))
AllBytes-part zero zero xs h = tt
AllBytes-part zero (suc n) [] h = tt
AllBytes-part zero (suc n) (x ∷ xs) h = (h.0, AllBytes-part zero n xs h.1)
AllBytes-part (suc p) zero [] h = tt
AllBytes-part (suc p) (suc n) [] h = tt
AllBytes-part (suc p) n (x ∷ xs) h = AllBytes-part p n xs h.1

pub length-take_le : (n : ℕ) (xs : Bytes) → length (take n xs) ≤ length xs
length-take_le zero xs = omega arith
length-take_le (suc n) [] = omega arith
length-take_le (suc n) (x ∷ xs) = omega (arith, length-take_le n xs)

module _ (script : Bytes) (all : AllBytes script) where
  pub script_fills :
      (n : ℕ) (s s' : Peer) (bytes : Bytes)
      → script_read script n s ≡ (ok bytes, s')
      → (length bytes ≡ n)
        × AllBytes bytes
        × (take s'.position script ≡ take s.position script ++ bytes)
        × (s'.received ≡ s.received)
  script_fills n s s' bytes h = elim (Bool-cases (leb n (length (drop s.position script)))) [
    | inr short ↦ let bad = rw short at h in cc
    | inl fits ↦
        let taken = rw fits at h in
        let bytes_is : take n (drop s.position script) ≡ bytes = ground arith in
        let position_is : s.position + n ≡ s'.position = ap (λ p. p.1.position) taken in
        let received_is : s.received ≡ s'.received = ap (λ p. p.1.received) taken in
        (
          ap length (sym bytes_is) ∙ length-take n (drop s.position script) (ground arith),
          rw bytes_is at (AllBytes-part s.position n script all),
          ap (λ k. take k script) (sym position_is)
              ∙ take_more s.position n script
              ∙ ap (λ t. take s.position script ++ t) bytes_is,
          sym received_is,
        )
  ]

  -- The reads give the next bytes of the script, and the writes are kept.
  abbrev pub script_stream : ByteStream Peer (Unit {0})
  script_stream = record {
    read_exact = script_read script;
    write_all = λ bytes peer. (ok tt, record peer { received = peer.received ++ bytes });
    taken = λ peer. take peer.position script;
    sent = λ peer. peer.received;
    fills = script_fills;
    writes = λ bytes s s' h.
        (ap (λ p. take p.1.position script) (sym h), ap (λ p. p.1.received) (sym h));
  }

length-take_more : (p n : ℕ) (xs : Bytes) → length (take p xs) ≤ length (take (p + n) xs)
length-take_more p n xs =
    omega (arith, ap length (take_more p n xs), length-append (take p xs) (take n (drop p xs)))

-- A read gives bytes or nothing, and no timer runs out.
abbrev pub patient : ℕ → Peer → Option Peer
patient duration peer = none

pub script_stream-IsForward :
    (script : Bytes) (all : AllBytes script)
    → IsForward {T = Unit {0}} (script_stream script all) (λ direction frame trace. trace) patient
script_stream-IsForward script all = record {
  reads = λ n s. elim (Bool-cases (leb n (length (drop s.position script)))) [
    | inl fits ↦ rw fits (length-take_more s.position n script)
    | inr short ↦ rw short (omega arith)
  ];
  writes = λ bytes s. omega arith;
  waits = λ duration s s' e. cc;
}
