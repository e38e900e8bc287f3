-- ===== src/Pairing/Queue.antt =====
-- The queue of sends: nothing is lost, the order is kept, and a receive answers an earlier send.
use modbus_simulator_go.Base.{
  ℕ, ◌+◌, ◌≤◌, ◌<◌, ◌≡◌, refl, sym, ap, ◌∙◌, List, [], ◌∷◌, ◌++◌, map, append_assoc, append-nil,
  map-append, length, arith, length-append, length-map, ◌*◌, All, All-append,
}
use modbus_simulator_go.Pairing.{
  Direction, sent, received, Entry, Pair, Pairing, pair_receive, pair_step, pair_from, pair_entries,
}

abbrev pub receive_count : Direction → ℕ
receive_count sent = 0
receive_count received = 1

module _ {A : Type 0} where
  abbrev pub send_of : Direction → A → List A
  send_of sent a = a ∷ []
  send_of received a = []

  -- The sends of a log, in order, and its receives.
  abbrev pub sends : List (Entry A) → List A
  sends [] = []
  sends (e ∷ es) = send_of e.direction e.content ++ sends es

  abbrev pub receives : List (Entry A) → ℕ
  receives [] = 0
  receives (e ∷ es) = receive_count e.direction + receives es

  abbrev pub paired_sends : List (Pair A) → List A
  paired_sends = map (λ p. p.send)

  -- The sends taken so far, then those that wait.
  abbrev seen : Pairing A → List A
  seen p = paired_sends p.pairs ++ p.queue

  pair_receive-seen :
      (a : A) (p : Pairing A) (q : List A) → p.queue ≡ q → seen (pair_receive a p q) ≡ seen p
  unfolding pair_receive
  pair_receive-seen a p [] e = refl
  pair_receive-seen a p (b ∷ q) e =
      ap (λ t. t ++ q) (map-append (λ x. x.send) p.pairs _)
      ∙ (append_assoc (paired_sends p.pairs) (b ∷ []) q
          ∙ ap (λ t. paired_sends p.pairs ++ t) (sym e))

  pair_step-seen :
      (d : Direction) (a : A) (p : Pairing A) → seen (pair_step d a p) ≡ seen p ++ send_of d a
  unfolding pair_step
  pair_step-seen sent a p = sym (append_assoc (paired_sends p.pairs) p.queue (a ∷ []))
  pair_step-seen received a p = pair_receive-seen a p p.queue refl ∙ sym (append-nil (seen p))

  pair_from-seen :
      (es : List (Entry A)) (p : Pairing A) → seen (pair_from es p) ≡ seen p ++ sends es
  unfolding pair_from
  pair_from-seen [] p = sym (append-nil (seen p))
  pair_from-seen (e ∷ es) p =
      pair_from-seen es (pair_step e.direction e.content p)
      ∙ (ap (λ t. t ++ sends es) (pair_step-seen e.direction e.content p)
          ∙ append_assoc (seen p) (send_of e.direction e.content) (sends es))

  -- The sends of the pairs, in order, then the sends left without an answer, are the sends of the
  -- log: each send is answered at most once, and the oldest first.
  pub pair_entries-sends :
      (es : List (Entry A))
      → paired_sends (pair_entries es).pairs ++ (pair_entries es).queue ≡ sends es
  unfolding pair_entries
  pair_entries-sends es = pair_from-seen es _

  -- The pairs made, and the receives that found no send.
  abbrev answered : Pairing A → ℕ
  answered p = length p.pairs + p.unmatched_receives

  pair_receive-answered :
      (a : A) (p : Pairing A) (q : List A) → answered (pair_receive a p q) ≡ answered p + 1
  unfolding pair_receive
  pair_receive-answered a p [] = omega arith
  pair_receive-answered a p (b ∷ q) =
      omega (arith, length-append p.pairs (record { send = b; receive = a } ∷ []))

  pair_step-answered :
      (d : Direction) (a : A) (p : Pairing A)
      → answered (pair_step d a p) ≡ answered p + receive_count d
  unfolding pair_step
  pair_step-answered sent a p = omega arith
  pair_step-answered received a p = pair_receive-answered a p p.queue

  pair_from-answered :
      (es : List (Entry A)) (p : Pairing A) → answered (pair_from es p) ≡ answered p + receives es
  unfolding pair_from
  pair_from-answered [] p = omega arith
  pair_from-answered (e ∷ es) p = omega (
    arith,
    pair_from-answered es (pair_step e.direction e.content p),
    pair_step-answered e.direction e.content p,
  )

  pub pair_entries-receives :
      (es : List (Entry A))
      → length (pair_entries es).pairs + (pair_entries es).unmatched_receives ≡ receives es
  unfolding pair_entries
  pair_entries-receives es =
      omega
        (arith, pair_from-answered es (record { queue = []; pairs = []; unmatched_receives = 0 }))

  -- The entries are all sends or receives.
  pub sends-receives : (es : List (Entry A)) → length (sends es) + receives es ≡ length es
  sends-receives [] = omega arith
  sends-receives (e ∷ es) = omega (
    arith,
    length-append (send_of e.direction e.content) (sends es),
    one_of e.direction e.content,
    sends-receives es,
  )
    where
      one_of : (d : Direction) (a : A) → length (send_of d a) + receive_count d ≡ 1
      one_of sent a = refl
      one_of received a = refl

  -- Two per pair, and one for each message without a partner, make the whole log.
  pub pair_entries-length :
      (es : List (Entry A))
      → 2 * length (pair_entries es).pairs
          + length (pair_entries es).queue
          + (pair_entries es).unmatched_receives
        ≡ length es
  pair_entries-length es = omega (
    arith,
    sends-receives es,
    pair_entries-receives es,
    ap length (pair_entries-sends es),
    length-append (paired_sends (pair_entries es).pairs) (pair_entries es).queue,
    length-map (pair_entries es).pairs (λ p. p.send),
  )

-- Stamped entries: `time` grows along the log.
module _ {A : Type 0} (time : A → ℕ) where
  abbrev pub Increasing : ℕ → List (Entry A) → Type 0
  Increasing t [] = Unit
  Increasing t (e ∷ es) = (t < time e.content) × Increasing (time e.content) es

  abbrev pub IsAnswer : Pair A → Type 0
  IsAnswer p = time p.send < time p.receive

  -- All that the loop holds is not newer than `t`, and its pairs are answers.
  record Timely (t : ℕ) (p : Pairing A) : Type 0 where
    queue_old : All (λ a. time a ≤ t) p.queue
    pairs_answer : All IsAnswer p.pairs

  older : (t u : ℕ) (xs : List A) → t ≤ u → All (λ a. time a ≤ t) xs → All (λ a. time a ≤ u) xs
  older t u [] h k = tt
  older t u (a ∷ xs) h (k, ks) = (omega arith, older t u xs h ks)

  pair_receive-Timely :
      (t : ℕ) (a : A) (p : Pairing A) (q : List A)
      → t < time a
      → All (λ b. time b ≤ t) q
      → Timely t p
      → Timely (time a) (pair_receive a p q)
  unfolding pair_receive
  pair_receive-Timely t a p [] h k v = record {
    queue_old = older t (time a) p.queue (omega arith) v.queue_old;
    pairs_answer = v.pairs_answer;
  }
  pair_receive-Timely t a p (b ∷ q) h (k, ks) v = record {
    queue_old = older t (time a) q (omega arith) ks;
    pairs_answer = All-append IsAnswer p.pairs _ v.pairs_answer (omega arith, tt);
  }

  pair_step-Timely :
      (t : ℕ) (d : Direction) (a : A) (p : Pairing A)
      → t < time a
      → Timely t p
      → Timely (time a) (pair_step d a p)
  unfolding pair_step
  pair_step-Timely t sent a p h v = record {
    queue_old =
        All-append _ p.queue (a ∷ []) (older t (time a) p.queue (omega arith) v.queue_old)
          (omega arith, tt);
    pairs_answer = v.pairs_answer;
  }
  pair_step-Timely t received a p h v = pair_receive-Timely t a p p.queue h v.queue_old v

  pair_from-answers :
      (es : List (Entry A)) (t : ℕ) (p : Pairing A)
      → Increasing t es
      → Timely t p
      → All IsAnswer (pair_from es p).pairs
  unfolding pair_from
  pair_from-answers [] t p h v = v.pairs_answer
  pair_from-answers (e ∷ es) t p (h, hs) v =
      pair_from-answers es (time e.content) (pair_step e.direction e.content p) hs
        (pair_step-Timely t e.direction e.content p h v)

  pub pair_entries-answers :
      (es : List (Entry A)) (t : ℕ) → Increasing t es → All IsAnswer (pair_entries es).pairs
  unfolding pair_entries
  pair_entries-answers es t h =
      pair_from-answers es t _ h (record { queue_old = tt; pairs_answer = tt })
