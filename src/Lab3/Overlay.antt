-- ===== src/Lab3/Overlay.antt =====
-- lab3/overlay/overlay.c: connectNbrs, against that of lab4/overlay/overlay.c.
use cs.Base.{
  ℕ, zero, suc, ◌≡◌, refl, ap, List, [], ◌∷◌, is_negative, lt_int, if◌then◌else◌, minus_one, Option,
  none, some, Run, ok, fault, and_then, get_elem?, inl, inr, Bool-cases,
}
use cs.Topology.{Site, get_my_node_id, get_nbr_num}
use cs.Overlay.Neighbors.{
  NbrEntry, get_node_id_from_ip, rounds, nt_addconn, Call, connect, close, free_table,
}
use cs.Overlay.Connect.{Sockets, Dialled, after_addconn}
use cs.Overlay.Connect as Lab4

-- The body of the `if`: the socket of a connection that fails is not closed, since the call of close
-- stands behind the return.
unfoldable pub dial :
    Site → Sockets → ℕ → List NbrEntry → NbrEntry → (List NbrEntry → Dialled) → Dialled
dial site os i t e next =
    let fd = os.socket i in
    if is_negative fd
    then ok (minus_one, (t, []))
    else if os.connects i
    then and_then (nt_addconn site t (get_node_id_from_ip e.ip) fd)
        (λ r. after_addconn (connect e.ip fd) r next)
    else ok (minus_one, (t, connect e.ip fd ∷ []))

-- A round, for `nt[i]`.
unfoldable pub connect_round :
    Site → Sockets → ℕ → List NbrEntry → Option NbrEntry → (List NbrEntry → Dialled) → Dialled
connect_round site os i t none next = fault
connect_round site os i t (some e) next =
    if lt_int e.node (get_my_node_id site) then dial site os i t e next else next t

-- The rounds from round `i` on.
unfoldable pub connect_rounds : Site → Sockets → ℕ → ℕ → List NbrEntry → Dialled
connect_rounds site os zero i t = ok (1, (t, []))
connect_rounds site os (suc n) i t =
    connect_round site os i t (get_elem? t i) (connect_rounds site os n (suc i))

unfoldable pub connect_nbrs : Site → Sockets → List NbrEntry → Dialled
connect_nbrs site os t = connect_rounds site os (rounds (get_nbr_num site)) 0 t

-- The calls that are not close.
abbrev pub unclosed : List Call → List Call
unclosed [] = []
unclosed (connect ip fd ∷ calls) = connect ip fd ∷ unclosed calls
unclosed (close fd ∷ calls) = unclosed calls
unclosed (free_table ∷ calls) = free_table ∷ unclosed calls

-- A run without its calls of close.
abbrev pub leaks : Dialled → Dialled
leaks (ok (value, (t, calls))) = ok (value, (t, unclosed calls))
leaks fault = fault

leaks-then :
    (ip fd : ℕ) (r r' : Dialled)
    → leaks r ≡ r'
    → leaks (and_then r (λ q. ok (q.0, (q.1.0, connect ip fd ∷ q.1.1))))
      ≡ and_then r' (λ q. ok (q.0, (q.1.0, connect ip fd ∷ q.1.1)))
leaks-then ip fd (ok (value, (t, calls))) r' e =
    ap (λ r. and_then r (λ q. ok (q.0, (q.1.0, connect ip fd ∷ q.1.1)))) e
leaks-then ip fd fault r' e = ap (λ r. and_then r (λ q. ok (q.0, (q.1.0, connect ip fd ∷ q.1.1)))) e

leaks-after_addconn :
    (ip fd : ℕ) (r : Run (ℕ × List NbrEntry)) (next next' : List NbrEntry → Dialled)
    → ((t : List NbrEntry) → leaks (next t) ≡ next' t)
    → leaks (and_then r (λ q. after_addconn (connect ip fd) q next))
      ≡ and_then r (λ q. after_addconn (connect ip fd) q next')
unfolding after_addconn
leaks-after_addconn ip fd fault next next' h = refl
leaks-after_addconn ip fd (ok (value, t)) next next' h = elim (Bool-cases (is_negative value)) [
  | inl failed ↦ rw failed refl
  | inr added ↦ rw added (leaks-then ip fd (next t) (next' t) (h t))
]

leaks-dial :
    (site : Site) (os : Sockets) (i : ℕ) (t : List NbrEntry) (e : NbrEntry)
    (next next' : List NbrEntry → Dialled)
    → ((t : List NbrEntry) → leaks (next t) ≡ next' t)
    → leaks (Lab4.dial site os i t e next) ≡ dial site os i t e next'
unfolding dial Lab4.dial
leaks-dial site os i t e next next' h = elim (Bool-cases (is_negative (os.socket i))) [
  | inl failed ↦ rw failed refl
  | inr opened ↦ elim (Bool-cases (os.connects i)) [
    | inr refused ↦ rw (opened, refused) refl
    | inl made ↦
        rw (opened, made)
          (leaks-after_addconn e.ip (os.socket i)
            (nt_addconn site t (get_node_id_from_ip e.ip) (os.socket i)) next next' h)
  ]
]

leaks-connect_round :
    (site : Site) (os : Sockets) (i : ℕ) (t : List NbrEntry) (o : Option NbrEntry)
    (next next' : List NbrEntry → Dialled)
    → ((t : List NbrEntry) → leaks (next t) ≡ next' t)
    → leaks (Lab4.connect_round site os i t o next) ≡ connect_round site os i t o next'
unfolding connect_round Lab4.connect_round
leaks-connect_round site os i t none next next' h = refl
leaks-connect_round site os i t (some e) next next' h =
    elim (Bool-cases (lt_int e.node (get_my_node_id site))) [
      | inl smaller ↦ rw smaller (leaks-dial site os i t e next next' h)
      | inr larger ↦ rw larger (h t)
    ]

leaks-connect_rounds :
    (site : Site) (os : Sockets) (n i : ℕ) (t : List NbrEntry)
    → leaks (Lab4.connect_rounds site os n i t) ≡ connect_rounds site os n i t
unfolding connect_rounds Lab4.connect_rounds
leaks-connect_rounds site os zero i t = refl
leaks-connect_rounds site os (suc n) i t =
    leaks-connect_round site os i t (get_elem? t i) (Lab4.connect_rounds site os n (suc i))
      (connect_rounds site os n (suc i)) (leaks-connect_rounds site os n (suc i))

-- connectNbrs of lab3 returns what lab4's does, with the same table and the same connections, and
-- faults where lab4's does; it makes none of lab4's calls of close.
pub connect_nbrs-leaks :
    (site : Site) (os : Sockets) (t : List NbrEntry)
    → leaks (Lab4.connect_nbrs site os t) ≡ connect_nbrs site os t
unfolding connect_nbrs Lab4.connect_nbrs
connect_nbrs-leaks site os t = leaks-connect_rounds site os (rounds (get_nbr_num site)) 0 t
