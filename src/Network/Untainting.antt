-- ===== src/Network/Untainting.antt =====
-- What untaints a node of a network.
use Prim.Native.String.{String}
use mathlib.Core.Bool.{true≢false}
use tri_ha_rd_higher_resilie.Base.{
  ℕ, Has, ◌≡◌, refl, sym, subst, ◌∙◌, ap, ◌⊎◌, inl, inr, true, false, arith, List, [], ◌∷◌, ◌++◌,
  some, map,
}
use tri_ha_rd_higher_resilie.Double.{Double}
use tri_ha_rd_higher_resilie.Node.{ENode, Datagram, Peer, peer, ta_consistent_state}
use tri_ha_rd_higher_resilie.Node.Peers.{find}
use tri_ha_rd_higher_resilie.Node.Taint.Untaint.{Untaints, accept_untainting-Untaints}
use tri_ha_rd_higher_resilie.Node.Steps.Untainting.{Step-cases}
use tri_ha_rd_higher_resilie.Node.Steps.{
  Step, exits, starts, monitors, polls, calibrates, asks_authority, receives, adds, serves, shadows,
  asks_siblings, stops,
}
use tri_ha_rd_higher_resilie.Network.{
  Packet, All, Drops, nothing, keeps, drops, Host, World, packet, emitted, Delivered, Moves, takes,
  loses, authority, Runs, begins, moves,
}
use tri_ha_rd_higher_resilie.Network.Answers.{
  IsAnswer, Replies, handle_message-replies, handle_message-IsAnswer,
}
use tri_ha_rd_higher_resilie.Network.Senders.{
  send_tainted_messages-NoAnswers, end_monitor-NoAnswers, add_sibling-NoAnswers, calibrate-IsAnswer,
}

module _ {A : Type 0} (P Q : A → Type 0) where
  All-map : ((x : A) → P x → Q x) → (l : List A) → All P l → All Q l
  All-map f [] h = tt
  All-map f (x ∷ l) h = (f x h.0, All-map f l h.1)

module _ {A : Type 0} (P : A → Type 0) where
  All-append : (l m : List A) → All P l → All P m → All P (l ++ m)
  All-append [] m h k = k
  All-append (x ∷ l) m h k = (h.0, All-append l m h.1 k)

  All-Has : (x : A) (l : List A) → All P l → Has x l → P x
  All-Has x [] h b = absurd b
  All-Has x (y ∷ l) h (inl e) = subst P (sym e) h.0
  All-Has x (y ∷ l) h (inr b) = All-Has x l h.1 b

module _ {A : Type 0} (P : A → Type 0) where
  All-members : (l : List A) → All P l → All (λ x. Has x l × P x) l
  All-members [] h = tt
  All-members (x ∷ l) h = (
    (inl refl, h.0),
    All-map (λ y. Has y l × P y) (λ y. Has y (x ∷ l) × P y) (λ y g. (inr g.0, g.1)) l
        (All-members l h.1),
  )

All-Drops : (P : Packet → Type 0) (l m : List Packet) → Drops l m → All P l → All P m
All-Drops P _ _ nothing h = tt
All-Drops P (p ∷ l) (_ ∷ m) (keeps d) h = (h.0, All-Drops P l m d h.1)
All-Drops P (p ∷ l) m (drops d) h = All-Drops P l m d h.1

not_drift : (rest : List ℕ) → ¬ IsAnswer (b'D' ∷ rest)
not_drift rest h = omega arith

module _ {F : Double} where
  -- The packet is one that the host gives to the socket in this step, at whose beginning its clock is
  -- consistent with the TA and it lists the node that the packet is for.
  pub record Sends (h : Host F) {m : ENode F} (s : Step h.node m) (p : Packet) : Type 0 where
    pub datagram : Datagram
    pub given : Has datagram (emitted s)
    pub same : p ≡ packet h datagram
    pub consistent : h.node.clock_state ≡ ta_consistent_state
    pub asker : Peer
    pub known : find (peer p.sent.ip p.sent.port) h.node.siblings ≡ some asker

  -- A move in which a host of the world takes a step that sends the packet so.
  abbrev pub SentIn : {w v : World F} → Moves w v → Packet → Type 0
  SentIn (takes before after h m s at delivered hosts flight) p = Sends h s p
  SentIn (loses hosts lost) p = ⊥
  SentIn (authority q rest drift hosts flight) p = ⊥

  -- A move of the run is such a one.
  abbrev pub Answered : {w v : World F} → Runs w v → Packet → Type 0
  Answered begins p = ⊥
  Answered (moves before m) p = SentIn m p ⊎ Answered before p

  -- A datagram of a host to a node that it lists, of a time at which it is consistent with the TA.
  record FromListing (h : Host F) (d : Datagram) : Type 0 where
    consistent : h.node.clock_state ≡ ta_consistent_state
    asker : Peer
    known : find (peer d.ip d.port) h.node.siblings ≡ some asker

  abbrev SentWell : Host F → Datagram → Type 0
  SentWell h d = IsAnswer d.payload → FromListing h d

  Replies-SentWell :
      (h : Host F) (ip : String) (cport : ℕ) (d : Datagram)
      → (IsAnswer d.payload → Replies ip cport h.node d)
      → SentWell h d
  Replies-SentWell h ip cport d f answer =
      let r = f answer in
      record {
        consistent = r.consistent;
        asker = r.sibling;
        known =
            ap (λ x. find x h.node.siblings)
              (ap (λ x. peer x d.port) r.to_ip ∙ ap (peer ip) r.to_port)
            ∙ r.known;
      }

  quiet-SentWell : (h : Host F) (d : Datagram) → ¬ IsAnswer d.payload → SentWell h d
  quiet-SentWell h d f answer = absurd (f answer)

  emitted-SentWell : (h : Host F) (m : ENode F) (s : Step h.node m) → All (SentWell h) (emitted s)
  unfolding emitted
  emitted-SentWell h m (exits t e) = tt
  emitted-SentWell h m (starts now reading e) = tt
  emitted-SentWell h m (monitors start ticks e) = tt
  emitted-SentWell h m (polls threshold start readings e) = tt
  emitted-SentWell h m (calibrates now dummy_ts runs d e) =
      (quiet-SentWell h d (calibrate-IsAnswer now dummy_ts runs h.node (m, d) e), tt)
  emitted-SentWell h m (asks_authority now dummy_ts e) =
      All-map _ (SentWell h) (quiet-SentWell h) _ (end_monitor-NoAnswers now dummy_ts h.node)
  emitted-SentWell h m (receives i ip cport buff e) =
      All-map _ (SentWell h) (λ d f. Replies-SentWell h ip cport d f) _
        (handle_message-replies i ip cport buff h.node)
  emitted-SentWell h m (adds failed hostname port e) =
      All-map _ (SentWell h) (quiet-SentWell h) _
        (add_sibling-NoAnswers failed hostname port h.node)
  emitted-SentWell h m (serves e) = tt
  emitted-SentWell h m (shadows now e) = tt
  emitted-SentWell h m (asks_siblings dummy_ts e) =
      All-map _ (SentWell h) (quiet-SentWell h) _ (send_tainted_messages-NoAnswers dummy_ts h.node)
  emitted-SentWell h m (stops e) = tt

  emitted-Sends :
      (h : Host F) (m : ENode F) (s : Step h.node m)
      → All (λ d. IsAnswer d.payload → Sends h s (packet h d)) (emitted s)
  emitted-Sends h m s =
      All-map (λ d. Has d (emitted s) × SentWell h d)
        (λ d. IsAnswer d.payload → Sends h s (packet h d))
        (λ d good answer.
          let listing = good.1 answer in
          record {
            datagram = d;
            given = good.0;
            same = refl;
            consistent = listing.consistent;
            asker = listing.asker;
            known = listing.known;
          })
        (emitted s) (All-members (SentWell h) (emitted s) (emitted-SentWell h m s))

  All-packet :
      (P : Packet → Type 0) (h : Host F) (l : List Datagram)
      → All (λ d. P (packet h d)) l
      → All P (map (packet h) l)
  All-packet P h [] k = tt
  All-packet P h (d ∷ l) k = (k.0, All-packet P h l k.1)

  -- If it is an answer, then it was sent so.
  abbrev pub IsFair : {w v : World F} → Runs w v → Packet → Type 0
  IsFair run p = IsAnswer p.sent.payload → Answered run p

  abbrev pub NoneYet : World F → Type 0
  NoneYet w = All (λ p. ¬ IsAnswer p.sent.payload) w.flight

  moves-IsFair :
      (w v u : World F) (run : Runs w v) (m : Moves v u)
      → All (IsFair run) v.flight
      → All (IsFair (moves run m)) u.flight
  moves-IsFair w v u run m old =
      by m (All-map (IsFair run) (later m) (λ p f answer. inr (f answer)) v.flight old)
    where
      later : Moves v u → Packet → Type 0
      later m p = IsAnswer p.sent.payload → SentIn m p ⊎ Answered run p

      by : (m : Moves v u) → All (later m) v.flight → All (later m) u.flight
      by (takes before after h n s at delivered hosts flight) kept =
          let good : Packet → Type 0 =
            λ p. IsAnswer p.sent.payload → Sends h s p ⊎ Answered run p in
          let sent =
            All-map (λ d. IsAnswer d.payload → Sends h s (packet h d)) (λ d. good (packet h d))
              (λ d f answer. inl (f answer)) (emitted s) (emitted-Sends h n s) in
          subst (All good) (sym flight) (
            All-append good (map (packet h) (emitted s)) v.flight
              (All-packet good h (emitted s) sent) kept)
      by (loses hosts lost) kept = All-Drops (later (loses hosts lost)) v.flight u.flight lost kept
      by (authority p rest drift hosts flight) kept =
          subst (All (later (authority p rest drift hosts flight))) (sym flight)
            ((λ answer. absurd (not_drift rest (subst IsAnswer drift answer))), kept)

  -- In a run that begins without answers in flight, every answer in flight was sent in a step of a host that was
  -- consistent with the TA.
  Runs-IsFair : (w v : World F) (run : Runs w v) → NoneYet w → All (IsFair run) v.flight
  Runs-IsFair w _ begins none_yet =
      let start : Runs w w = begins in
      All-map (λ p. ¬ IsAnswer p.sent.payload) (IsFair start) (λ p h answer. absurd (h answer))
        w.flight none_yet
  Runs-IsFair w u (moves {v} run m) none_yet =
      moves-IsFair w v u run m (Runs-IsFair w v run none_yet)

  -- The message that untaints: it is one that untaints the node, from the address of a sibling, and was sent
  -- in a move of the run.
  pub record VouchedFor {w v : World F} (run : Runs w v) (h : Host F) : Type 0 where
    pub p : Packet
    pub flies : Has p v.flight
    pub addressed : (p.sent.ip ≡ h.ip) × (p.sent.port ≡ h.node.port)
    pub untaints : Untaints p.from_ip p.from_port p.sent.payload h.node
    pub answered : Answered run p

  -- In a run that begins without answers in flight, whatever is lost, late, overtaken or delivered again:
  -- if a host takes a step by which its node is no longer tainted, then the step is the receipt of an
  -- untainting message from a sibling, by which the quorum is reached; and in a move of the run, a host
  -- gave this very message to its socket, under the address of that sibling, in a step at whose beginning
  -- it was consistent with the TA and listed the node.
  pub Runs-VouchedFor :
      (w v : World F) (run : Runs w v) (h : Host F) (m : ENode F) (s : Step h.node m)
      → NoneYet w
      → Delivered v.flight h s
      → h.node.tainted ≡ true
      → m.tainted ≡ false
      → VouchedFor run h
  Runs-VouchedFor w v run h m s none_yet delivered tainted untainted =
      Step-cases h.node m (λ s. Delivered v.flight h s → VouchedFor run h)
        (λ s kept d. absurd (true≢false (sym (kept tainted) ∙ untainted)))
        (λ i ip cport buff e d.
          let (answer, untaints) =
            handle_message-IsAnswer i ip cport buff h.node tainted
              (sym (ap (λ x. x.tainted) e) ∙ untainted) in
          let p : Packet = record {
            from_ip = ip;
            from_port = cport;
            sent = record { payload = buff; ip = h.ip; port = h.node.port };
          } in
          record {
            p = p;
            flies = d;
            addressed = (refl, refl);
            untaints = (accept_untainting-Untaints ip cport buff h.node tainted).0 untaints;
            answered = All-Has (IsFair run) p v.flight (Runs-IsFair w v run none_yet) d answer;
          })
        s delivered
