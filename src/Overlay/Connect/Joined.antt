-- ===== src/Overlay/Connect/Joined.antt =====
-- A node is connected to all of its neighbours.
use cs.Base.{
  ℕ, zero, suc, ◌+◌, ◌<◌, ◌≡◌, ◌≢◌, refl, sym, ap, ◌∙◌, List, [], ◌∷◌, true, false, ◌==◌,
  is_positive, is_negative, lt_int, if-both, some, ok, length, All, arith, inl, inr, ◌⊎◌,
  Bool-cases,
}
use cs.Topology.{Site, get_my_node_id, get_nbr_num, get_nbr_array, first_of_array}
use cs.Overlay.Neighbors.{NbrEntry, get_node_id_from_ip, rounds, Call}
use cs.Overlay.Neighbors.Laws.{Distinct, IsTable, joined, nt_addconn-joined}
use cs.Overlay.Connect.{Sockets, connect_nbrs, count_larger, accept_rounds, wait_for, wait_nbrs}
use cs.Overlay.Connect.Laws.{dialled, connect_nbrs-dialled}

-- The same neighbours, on whatever connections.
data Renews : List NbrEntry → List NbrEntry → Type 0 where
  none_left : Renews [] []
  renew :
      {e f : NbrEntry} {es fs : List NbrEntry}
      → e.node ≡ f.node
      → e.ip ≡ f.ip
      → Renews es fs
      → Renews (e ∷ es) (f ∷ fs)

Renews-length : {t u : List NbrEntry} → Renews t u → length t ≡ length u
Renews-length none_left = refl
Renews-length (renew n i r) = ap suc (Renews-length r)

Renews-All :
    (P : ℕ → ℕ → Type 0) {t u : List NbrEntry}
    → Renews t u
    → All (λ e. P e.node e.ip) t
    → All (λ e. P e.node e.ip) u
Renews-All P none_left h = tt
Renews-All P (renew n i r) h = (rw (n, i) at h.0, Renews-All P r h.1)

Renews-Distinct : {t u : List NbrEntry} → Renews t u → Distinct t → Distinct u
Renews-Distinct none_left d = tt
Renews-Distinct (renew {e} {f} n i r) d =
    (Renews-All (λ m ip. f.node ≢ m) r (rw n at d.0), Renews-Distinct r d.1)

Renews-IsTable : (site : Site) {t u : List NbrEntry} → Renews t u → IsTable site t → IsTable site u
Renews-IsTable site r v = record {
  size = sym (Renews-length r) ∙ v.size;
  distinct = Renews-Distinct r v.distinct;
  positive = Renews-All (λ n ip. is_positive n ≡ true) r v.positive;
  addressed = Renews-All (λ n ip. get_node_id_from_ip ip ≡ n) r v.addressed;
}

joined-Renews : (node conn : ℕ) (t : List NbrEntry) → Renews t (joined node conn t)
joined-Renews node conn [] = none_left
joined-Renews node conn (e ∷ es) =
    let P : NbrEntry → Type 0 = λ f. Renews (e ∷ es) (f ∷ joined node conn es) in
    let rest = joined-Renews node conn es in
    if-both P (e.node == node) (record e { conn = conn }) e (renew refl refl rest)
      (renew refl refl rest)

abbrev pub IsUp : NbrEntry → Type 0
IsUp e = is_negative e.conn ≡ false

-- An entry that is connected, or whose node is among the next `counter` to come.
abbrev Due : (ℕ → ℕ × ℕ) → ℕ → ℕ → NbrEntry → Type 0
Due arrivals counter k e =
    IsUp e ⊎ ((j : ℕ) × (j < counter) × (get_node_id_from_ip (arrivals (k + j)).1 ≡ e.node))

joined-Due :
    (arrivals : ℕ → ℕ × ℕ) (counter k : ℕ) (t : List NbrEntry)
    → is_negative (arrivals k).0 ≡ false
    → All (Due arrivals (suc counter) k) t
    → All
        (Due arrivals counter (suc k))
        (joined (get_node_id_from_ip (arrivals k).1) (arrivals k).0 t)
joined-Due arrivals counter k [] up h = tt
joined-Due arrivals counter k (e ∷ es) up h =
    let node = get_node_id_from_ip (arrivals k).1 in
    (
      elim (Bool-cases (e.node == node)) [
        | inl same ↦ rw same (inl up)
        | inr other ↦
            rw other (elim h.0 [ inl had ↦ inl had | inr (j, l, at) ↦ later e other j l at ])
      ],
      joined-Due arrivals counter k es up h.1,
    )
  where
    later :
        (e : NbrEntry)
        → e.node == get_node_id_from_ip (arrivals k).1 ≡ false
        → (j : ℕ) → j < suc counter
        → get_node_id_from_ip (arrivals (k + j)).1 ≡ e.node
        → Due arrivals counter (suc k) e
    later e other zero l at =
        let e0 : k + 0 ≡ k = omega arith in
        let at_k : get_node_id_from_ip (arrivals k).1 ≡ e.node = rw e0 at at in
        absurd (ground arith)
    later e other (suc j) l at =
        let e1 : k + suc j ≡ suc k + j = omega arith in inr (j, omega arith, rw e1 at at)

accept_rounds-Up :
    (site : Site) (arrivals : ℕ → ℕ × ℕ) (counter k : ℕ) (t : List NbrEntry)
    → IsTable site t
    → ((j : ℕ) → is_negative (arrivals j).0 ≡ false)
    → All (Due arrivals counter k) t
    → (u : List NbrEntry) × (accept_rounds site arrivals counter k t ≡ ok u)
      × IsTable site u
      × All IsUp u
unfolding accept_rounds
accept_rounds-Up site arrivals zero k t v up due = (t, refl, v, now t due)
  where
    now : (t : List NbrEntry) → All (Due arrivals zero k) t → All IsUp t
    now [] h = tt
    now (e ∷ es) h =
        (elim h.0 [ inl had ↦ had | inr (j, l, at) ↦ absurd (omega arith) ], now es h.1)
accept_rounds-Up site arrivals (suc counter) k t v up due =
    let node = get_node_id_from_ip (arrivals k).1 in
    let t' = joined node (arrivals k).0 t in
    let v' = Renews-IsTable site (joined-Renews node (arrivals k).0 t) v in
    let (u, e, w, all) =
      accept_rounds-Up site arrivals counter (suc k) t' v' up
        (joined-Due arrivals counter k t (up k) due) in
    (u, rw (up k, nt_addconn-joined site node (arrivals k).0 t v, e), w, all)

-- What connectNbrs leaves when every call succeeds.
dialled-Up :
    (me : ℕ) (os : Sockets) (i : ℕ) (t : List NbrEntry)
    → ((j : ℕ) → is_negative (os.socket j) ≡ false)
    → ((j : ℕ) → os.connects j ≡ true)
    → ((dialled me os i t).0 ≡ 1)
      × Renews t (dialled me os i t).1.0
      × All (λ e. lt_int e.node me ≡ true → IsUp e) (dialled me os i t).1.0
dialled-Up me os i [] opens connects = (refl, none_left, tt)
dialled-Up me os i (e ∷ es) opens connects =
    let (value, same, up) = dialled-Up me os (suc i) es opens connects in
    elim (Bool-cases (lt_int e.node me)) [
      | inl smaller ↦
          rw (smaller, opens i, connects i) (value, renew refl refl same, ((λ s. opens i), up))
      | inr larger ↦ rw larger (value, renew refl refl same, ((λ s. absurd cc), up))
    ]

-- What is not connected to yet is to come.
still_to_come :
    (me counter : ℕ) (arrivals : ℕ → ℕ × ℕ) {t u : List NbrEntry}
    → Renews t u
    → All (λ e. lt_int e.node me ≡ true → IsUp e) u
    → All
        (λ e.
          lt_int e.node me ≡ false
          → (j : ℕ) × (j < counter) × (get_node_id_from_ip (arrivals j).1 ≡ e.node))
        t
    → All (Due arrivals counter 0) u
still_to_come me counter arrivals none_left up h = tt
still_to_come me counter arrivals (renew {e} {f} n i r) up h = (
  elim (Bool-cases (lt_int f.node me)) [
    | inl smaller ↦ inl (up.0 smaller)
    | inr larger ↦
        let (j, l, at) = h.0 (rw n larger) in
        let e0 : 0 + j ≡ j = omega arith in inr (j, l, rw e0 (at ∙ n))
  ],
  still_to_come me counter arrivals r up.1 h.1,
)

-- On a table of the neighbours, if all sockets can be made, connected and accepted, the array of the
-- neighbours can be read, and every neighbour whose node ID is not smaller is among the connections
-- that waitNbrs counts on, then connectNbrs returns 1, and after waitNbrs the table still has the
-- neighbours, all of them connected.
pub wait_nbrs-connect_nbrs :
    (site : Site) (os : Sockets) (socket_fd : ℕ) (arrivals : ℕ → ℕ × ℕ) (t : List NbrEntry)
    (nbrs : List ℕ)
    → IsTable site t
    → ((j : ℕ) → is_negative (os.socket j) ≡ false)
    → ((j : ℕ) → os.connects j ≡ true)
    → is_negative socket_fd ≡ false
    → ((j : ℕ) → is_negative (arrivals j).0 ≡ false)
    → first_of_array (rounds (get_nbr_num site)) (get_nbr_array site) ≡ some nbrs
    → All
        (λ e.
          lt_int e.node (get_my_node_id site) ≡ false
          → (j : ℕ) × (j < count_larger (get_my_node_id site) nbrs)
            × (get_node_id_from_ip (arrivals j).1 ≡ e.node))
        t
    → (dialled : List NbrEntry) × (calls : List Call) × (joined : List NbrEntry) × (connect_nbrs
          site os t
        ≡ ok (1, (dialled, calls)))
      × (wait_nbrs site socket_fd arrivals dialled ≡ ok joined)
      × IsTable site joined
      × All IsUp joined
unfolding wait_nbrs wait_for
wait_nbrs-connect_nbrs site os socket_fd arrivals t nbrs v opens connects listens accepts array
      come =
    let me = get_my_node_id site in
    let walk = dialled me os 0 t in
    let (value, same, up) = dialled-Up me os 0 t opens connects in
    let (u, run, w, all) =
      accept_rounds-Up site arrivals (count_larger me nbrs) 0 walk.1.0 (Renews-IsTable site same v)
        accepts (still_to_come me (count_larger me nbrs) arrivals same up come) in
    (
      walk.1.0,
      walk.1.1,
      u,
      connect_nbrs-dialled site os t v ∙ ap (λ n. ok (n, walk.1)) value,
      rw (array, listens) run,
      w,
      all,
    )
