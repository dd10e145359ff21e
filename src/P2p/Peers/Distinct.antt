-- ===== src/P2p/Peers/Distinct.antt =====
-- `OnAddPeerPacket` adds peers, whatever it reads.
use still_blockchain.Base.{
  ℕ, zero, suc, false, Option, List, [], ◌∷◌, ◌++◌, ◌≡◌, refl, arith, length, ltb, if◌then◌else◌,
  sym, append-nil, append_assoc, ◌∙◌, Bool-cases, inl, subst, inr,
}
use still_blockchain.Binary.{Des, new_des}
use still_blockchain.Binary.Reads.{if-holds}
use still_blockchain.P2p.Peers.{
  read_peer, stops, gives, KnownPeer, gray, same_text, is_known, add_known, Ending, add_peers,
  on_add_peer_packet, refused, bad_length,
}

-- No two peers have the same address.
abbrev pub AreDistinct : List KnownPeer → Type 0
AreDistinct [] = Unit
AreDistinct (v ∷ vs) = (is_known v.ip vs ≡ false) × AreDistinct vs

-- New peers, which nobody has been in touch with.
abbrev pub AreGray : List KnownPeer → Type 0
AreGray [] = Unit
AreGray (v ∷ vs) = (v.kind ≡ gray) × AreGray vs

-- The peers `vs'` are `vs` with gray ones behind, and stay distinct.
pub record Grows (vs vs' : List KnownPeer) : Type 0 where
  pub behind : (more : List KnownPeer) × (vs' ≡ vs ++ more) × AreGray more
  pub distinct : AreDistinct vs → AreDistinct vs'

same_text_sym : (a b : List ℕ) → same_text a b ≡ same_text b a
unfolding same_text
same_text_sym [] [] = refl
same_text_sym [] (x ∷ b) = refl
same_text_sym (x ∷ a) [] = refl
same_text_sym (x ∷ a) (y ∷ b) = ground (arith, same_text_sym a b)

-- A peer behind the others, at another address than `ip`.
is_known-behind :
    (ip : List ℕ) (vs : List KnownPeer) (new : KnownPeer)
    → is_known ip vs ≡ false
    → same_text new.ip ip ≡ false
    → is_known ip (vs ++ new ∷ []) ≡ false
unfolding is_known
is_known-behind ip [] new h other = ground (arith, other)
is_known-behind ip (v ∷ vs) new h other =
    let rest : is_known ip vs ≡ false = ground (arith, h) in
    ground (arith, h, is_known-behind ip vs new rest other)

behind-AreDistinct :
    (vs : List KnownPeer) (new : KnownPeer)
    → is_known new.ip vs ≡ false
    → AreDistinct vs
    → AreDistinct (vs ++ new ∷ [])
unfolding is_known
behind-AreDistinct [] new h d = (refl, tt)
behind-AreDistinct (v ∷ vs) new h (first, d) =
    let other : same_text v.ip new.ip ≡ false = ground (arith, h) in
    let rest : is_known new.ip vs ≡ false = ground (arith, h) in
    (
      is_known-behind v.ip vs new first (same_text_sym new.ip v.ip ∙ other),
      behind-AreDistinct vs new rest d,
    )

same-Grows : (vs : List KnownPeer) → Grows vs vs
same-Grows vs = record { behind = ([], sym (append-nil vs), tt); distinct = λ d. d }

AreGray-append : (xs ys : List KnownPeer) → AreGray xs → AreGray ys → AreGray (xs ++ ys)
AreGray-append [] ys g h = h
AreGray-append (v ∷ xs) ys (first, g) h = (first, AreGray-append xs ys g h)

Grows-trans : (a b c : List KnownPeer) → Grows a b → Grows b c → Grows a c
Grows-trans a b c g h =
    let (m, e, gm) = g.behind in
    let (n, e', gn) = h.behind in
    record {
      behind = (m ++ n, e' ∙ (rw e (append_assoc a m n)), AreGray-append m n gm gn);
      distinct = λ d. h.distinct (g.distinct d);
    }

add_known-Grows : (ip : List ℕ) (port : ℕ) (vs : List KnownPeer) → Grows vs (add_known ip port vs)
unfolding add_known
add_known-Grows ip port vs =
    let new : KnownPeer = record { ip = ip; port = port; kind = gray; last_connect = 0 } in
    elim (Bool-cases (is_known ip vs)) [
      | inl known ↦
          subst (λ b. Grows vs (if b then vs else vs ++ new ∷ [])) (sym known) (same-Grows vs)
      | inr fresh ↦
          subst (λ b. Grows vs (if b then vs else vs ++ new ∷ [])) (sym fresh)
            (record {
              behind = (new ∷ [], refl, (refl, tt));
              distinct = behind-AreDistinct vs new fresh;
            })
    ]

add_peers-Grows :
    (parse : List ℕ → Option (List ℕ)) (left : ℕ) (d : Des) (vs : List KnownPeer)
    → Grows vs (add_peers parse left d vs).1
unfolding add_peers
add_peers-Grows parse (suc (suc (suc (suc n)))) d vs =
    elim (read_peer parse d)
      as (λ x.
        Grows vs
          (elim x as (λ _. Ending × List KnownPeer) [
            | stops ending ↦ (ending, vs)
            | gives ip port rest ↦ add_peers parse (suc (suc n)) rest (add_known ip port vs)
          ]).1) [
            | stops ending ↦ same-Grows vs
            | gives ip port rest ↦
                Grows-trans vs (add_known ip port vs)
                  (add_peers parse (suc (suc n)) rest (add_known ip port vs)).1
                  (add_known-Grows ip port vs)
                  (add_peers-Grows parse (suc (suc n)) rest (add_known ip port vs))
          ]
add_peers-Grows parse zero d vs = same-Grows vs
add_peers-Grows parse (suc zero) d vs = same-Grows vs
add_peers-Grows parse (suc (suc zero)) d vs = same-Grows vs
add_peers-Grows parse (suc (suc (suc zero))) d vs = same-Grows vs

-- Whatever a packet with a list of peers holds, and however its handling ends, no known peer is
-- changed: new ones come behind them, which nobody has been in touch with, and no two peers have the
-- same address if that was so before.
pub on_add_peer_packet-Grows :
    (parse : List ℕ → Option (List ℕ)) (packet : List ℕ) (vs : List KnownPeer)
    → Grows vs (on_add_peer_packet parse packet vs).1
unfolding on_add_peer_packet
on_add_peer_packet-Grows parse packet vs =
    if-holds (λ (r : Ending × List KnownPeer). Grows vs r.1) (ltb (length packet) 3)
      (refused bad_length, vs) (add_peers parse (length packet) (new_des packet) vs) (same-Grows vs)
      (add_peers-Grows parse (length packet) (new_des packet) vs)
