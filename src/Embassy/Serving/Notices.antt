-- ===== src/Embassy/Serving/Notices.antt =====
-- What `flush_notifications` sends, and when it is silent.
use qup.Prelude.{
  ℕ, suc, ◌+◌, ◌≤◌, ◌<◌, ◌≡◌, ◌≢◌, refl, sym, ap, ◌∙◌, inl, inr, Bool, true, false, not, ◌||◌,
  Bool-cases, List, [], ◌∷◌, ◌++◌, append_assoc, append-nil, Bytes, Result, ok, err, length, set,
  get_elem?-set_ne, get_elem?-set_self, length-set, ==_refl, ◌==◌, if◌then◌else◌, arith,
}
use qup.Prelude.Exec.{continue-ok}
use qup.Word.{to_be_bytes}
use qup.Wire.Codes
use qup.Client.Encode.{build_frame}
use qup.Client.Session.{ByteStream}
use qup.Embassy.Error.{ServerError}
use qup.Embassy.Stream.{send_frame, send_frame-build_frame}
use qup.Embassy.Serving.{
  ErasedKey, Serving, flag_at, count_at, flush_key, flush_from, flush_notifications,
}

module _ {S E K : Type 0} (io_stream : ByteStream S E) (erased : ErasedKey K) where
  -- Whether a key at an index has changed since its client was last told.
  abbrev pub due : ℕ → K → List Bool → List ℕ → Bool
  due index key observed seen =
      if not (flag_at observed index) || not (erased.observable key)
      then false
      else not (erased.generation key == count_at seen index)

  -- The CHANGED frames of the keys that are due, in the order of the keys.
  abbrev pub frame_bytes : {E : Type 0} → Result Bytes E → Bytes
  frame_bytes (ok bytes) = bytes
  frame_bytes (err e) = []

  abbrev pub notice : K → Bytes
  notice key = frame_bytes (build_frame Codes.changed (to_be_bytes 2 (erased.keyref key)))

  abbrev pub notices : ℕ → List K → List Bool → List ℕ → Bytes
  notices index [] observed seen = []
  notices index (key ∷ keys) observed seen =
      (if due index key observed seen then notice key else [])
      ++ notices (suc index) keys observed seen

  -- What is sent for one key.
  record FlushesKey (index : ℕ) (key : K) (before after : Serving S K) : Type 0 where
    pub sent :
        io_stream.sent after.stream
        ≡ io_stream.sent before.stream
          ++ (if due index key before.observed before.seen_generation then notice key else [])
    pub observed_kept : after.observed ≡ before.observed
    pub keys_kept : after.keys ≡ before.keys
    pub length_kept : length after.seen_generation ≡ length before.seen_generation
    pub settled :
        index < length before.seen_generation
        → due index key after.observed after.seen_generation ≡ false
    pub others_kept :
        (j : ℕ) → index ≢ j → count_at after.seen_generation j ≡ count_at before.seen_generation j

  same-FlushesKey :
      (index : ℕ) (key : K) (before after : Serving S K)
      → due index key before.observed before.seen_generation ≡ false
      → before ≡ after
      → FlushesKey index key before after
  same-FlushesKey index key before after quiet same = rw⁻¹ same (record {
    sent = rw quiet (sym (append-nil (io_stream.sent before.stream)));
    observed_kept = refl;
    keys_kept = refl;
    length_kept = refl;
    settled = λ lt. quiet;
    others_kept = λ j ne. refl;
  })

  count_at-set : (seen : List ℕ) (i j n : ℕ) → i ≢ j → count_at (set seen i n) j ≡ count_at seen j
  count_at-set seen i j n ne = rw (get_elem?-set_ne seen i j n ne, count_at) refl

  due_no_more :
      (index : ℕ) (key : K) (observed : List Bool) (seen : List ℕ)
      → index < length seen
      → due index key observed (set seen index (erased.generation key)) ≡ false
  due_no_more index key observed seen lt =
      let told = get_elem?-set_self seen index (erased.generation key) lt in
      elim (Bool-cases (not (flag_at observed index) || not (erased.observable key))) [
        | inl silent ↦ rw silent refl
        | inr watched ↦ rw (watched, told, count_at) (rw (==_refl (erased.generation key)) refl)
      ]

  sent-FlushesKey :
      (index : ℕ) (key : K) (before : Serving S K) (s : S)
      → due index key before.observed before.seen_generation ≡ true
      → send_frame io_stream Codes.changed (to_be_bytes 2 (erased.keyref key)) before.stream
        ≡ (ok tt, s)
      → FlushesKey index key before (record before {
        stream = s;
        seen_generation = set before.seen_generation index (erased.generation key);
      })
  sent-FlushesKey index key before s is_due h =
      let (bytes, built, sent) =
        send_frame-build_frame io_stream Codes.changed (to_be_bytes 2 (erased.keyref key))
          before.stream s h in
      record {
        sent = rw is_due (
            sent
            ∙ ap (λ t. io_stream.sent before.stream ++ t) (ap (λ r. frame_bytes r) (sym built)));
        observed_kept = refl;
        keys_kept = refl;
        length_kept = length-set before.seen_generation index (erased.generation key);
        settled = λ lt. due_no_more index key before.observed before.seen_generation lt;
        others_kept =
            λ j ne. count_at-set before.seen_generation index j (erased.generation key) ne;
      }

  abbrev pub put :
      Serving S K
      → Result (Unit {0}) (ServerError E) × S
      → Result (Unit {0}) (ServerError E) × Serving S K
  put before x = (x.0, record before { stream = x.1 })

  abbrev pub Puts : Serving S K → Serving S K → Result (Unit {0}) (ServerError E) × S → Type 0
  Puts before after x =
      (x ≡ (ok tt, after.stream)) × (record before { stream = after.stream } ≡ after)

  pub put-ok :
      (before after : Serving S K) (x : Result (Unit {0}) (ServerError E) × S)
      → put before x ≡ (ok tt, after)
      → Puts before after x
  put-ok before after (err e, s) done = cc
  put-ok before after (ok u, s) done =
      let same : s ≡ after.stream = ap (λ p. p.1.stream) done in
      let whole : record before { stream = s } ≡ after = ap (λ p. p.1) done in
      (ap (λ t. (ok tt, t)) same, ap (λ t. record before { stream = t }) (sym same) ∙ whole)

  ended-FlushesKey :
      (index : ℕ) (key : K) (before middle after : Serving S K)
      → middle ≡ after
      → FlushesKey index key before middle
      → FlushesKey index key before after
  ended-FlushesKey index key before middle after same flushed = rw same at flushed

  flush_key-FlushesKey :
      (index : ℕ) (key : K) (before after : Serving S K)
      → flush_key io_stream erased true index key before ≡ (ok tt, after)
      → FlushesKey index key before after
  unfolding flush_key
  flush_key-FlushesKey index key before after h =
      elim (Bool-cases (not (flag_at before.observed index) || not (erased.observable key))) [
        | inl silent ↦
            same-FlushesKey index key before after (rw silent refl) (ap (λ p. p.1) (rw silent at h))
        | inr watched ↦
            elim (Bool-cases (erased.generation key == count_at before.seen_generation index)) [
              | inl told ↦
                  same-FlushesKey index key before after (rw (watched, told) refl)
                    (ap (λ p. p.1) (rw told at (rw watched at h)))
              | inr changed ↦
                  let now : Serving S K = record before {
                    seen_generation = set before.seen_generation index (erased.generation key);
                  } in
                  let (sent, whole) =
                    put-ok now after
                      (send_frame io_stream Codes.changed (to_be_bytes 2 (erased.keyref key))
                        now.stream)
                      (rw changed at (rw watched at h)) in
                  let flushed =
                    sent-FlushesKey index key before after.stream (rw (watched, changed) refl)
                      sent in
                  ended-FlushesKey index key before _ after whole flushed
            ]
      ]

  notices_ext :
      (index : ℕ) (keys : List K) (observed : List Bool) (seen seen' : List ℕ)
      → ((j : ℕ) → index ≤ j → count_at seen j ≡ count_at seen' j)
      → notices index keys observed seen ≡ notices index keys observed seen'
  notices_ext index [] observed seen seen' same = refl
  notices_ext index (key ∷ keys) observed seen seen' same = rw (
    same index (omega arith),
    notices_ext (suc index) keys observed seen seen' (λ j le. same j (omega arith)),
  )

  -- What is sent for the keys from an index on, after which none of them is due.
  pub record Flushes (index : ℕ) (keys : List K) (before after : Serving S K) : Type 0 where
    pub sent :
        io_stream.sent after.stream
        ≡ io_stream.sent before.stream ++ notices index keys before.observed before.seen_generation
    pub observed_kept : after.observed ≡ before.observed
    pub keys_kept : after.keys ≡ before.keys
    pub length_kept : length after.seen_generation ≡ length before.seen_generation
    pub settled :
        index + length keys ≤ length before.seen_generation
        → notices index keys after.observed after.seen_generation ≡ []
    pub earlier_kept :
        (j : ℕ) → j < index → count_at after.seen_generation j ≡ count_at before.seen_generation j

  due_ext :
      (index : ℕ) (key : K) (observed : List Bool) (seen seen' : List ℕ)
      → count_at seen index ≡ count_at seen' index
      → due index key observed seen ≡ due index key observed seen'
  due_ext index key observed seen seen' same = rw same refl

  none_due :
      (index : ℕ) (key : K) (keys : List K) (observed : List Bool) (seen : List ℕ)
      → due index key observed seen ≡ false
      → notices (suc index) keys observed seen ≡ []
      → notices index (key ∷ keys) observed seen ≡ []
  none_due index key keys observed seen quiet rest = rw (quiet, rest) refl

  more-Flushes :
      (index : ℕ) (key : K) (keys : List K) (before middle after : Serving S K)
      → FlushesKey index key before middle
      → Flushes (suc index) keys middle after
      → Flushes index (key ∷ keys) before after
  more-Flushes index key keys before middle after one others = record {
    sent =
        others.sent
        ∙ rw
            (
              one.sent,
              one.observed_kept,
              notices_ext (suc index) keys before.observed middle.seen_generation
                  before.seen_generation (λ j le. one.others_kept j (λ e. omega (arith, e, le))),
            )
            (append_assoc (io_stream.sent before.stream) _ _);
    observed_kept = others.observed_kept ∙ one.observed_kept;
    keys_kept = others.keys_kept ∙ one.keys_kept;
    length_kept = others.length_kept ∙ one.length_kept;
    settled = λ le.
        none_due index key keys after.observed after.seen_generation
          (due_ext index key after.observed after.seen_generation middle.seen_generation
              (others.earlier_kept index (omega arith))
            ∙ ap (λ o. due index key o middle.seen_generation) others.observed_kept
            ∙ one.settled (omega (arith, le)))
          (others.settled (omega (arith, le, one.length_kept)));
    earlier_kept = λ j lt.
        others.earlier_kept j (omega (arith, lt)) ∙ one.others_kept j (λ e. omega (arith, e, lt));
  }

  flush_from-Flushes :
      (index : ℕ) (keys : List K) (before after : Serving S K)
      → flush_from io_stream erased true index keys before ≡ (ok tt, after)
      → Flushes index keys before after
  unfolding flush_from
  flush_from-Flushes index [] before after h =
      let same : before ≡ after = ap (λ p. p.1) h in
      rw⁻¹ same (record {
        sent = sym (append-nil (io_stream.sent before.stream));
        observed_kept = refl;
        keys_kept = refl;
        length_kept = refl;
        settled = λ le. refl;
        earlier_kept = λ j lt. refl;
      })
  flush_from-Flushes index (key ∷ keys) before after h =
      let (u, middle, first, rest) =
        continue-ok (flush_key io_stream erased true index key before)
          (λ u. flush_from io_stream erased true (suc index) keys) h in
      more-Flushes index key keys before middle after
        (flush_key-FlushesKey index key before middle first)
        (flush_from-Flushes (suc index) keys middle after rest)

  -- A `flush_notifications` that succeeds, on a server with observable keys, sends one CHANGED frame
  -- for each key that is observed and whose generation is not the one last seen, in the order of
  -- the keys, and nothing else; it changes neither the keys nor what is observed, and when there is
  -- a seen generation for each key, no key is due afterwards.
  pub flush_notifications-Flushes :
      (before after : Serving S K)
      → flush_notifications io_stream erased true before ≡ (ok tt, after)
      → Flushes 0 before.keys before after
  unfolding flush_notifications
  flush_notifications-Flushes before after h = flush_from-Flushes 0 before.keys before after h
