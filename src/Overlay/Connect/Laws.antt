-- ===== src/Overlay/Connect/Laws.antt =====
-- What connectNbrs and waitNbrs make of a neighbour table.
use cs.Base.{
  ℕ, zero, suc, ◌≡◌, ◌≢◌, refl, ap, ◌∙◌, List, [], ◌∷◌, ◌++◌, true, is_positive, is_negative,
  lt_int, if◌then◌else◌, minus_one, some, ok, length, length-append, All, All-append, arith, inl,
  inr, Bool-cases, append_assoc, get_elem?,
}
use cs.Topology.{Site, get_my_node_id, get_nbr_num}
use cs.Overlay.Neighbors.{NbrEntry, get_node_id_from_ip, rounds, nt_addconn, Call, connect, close}
use cs.Overlay.Neighbors.Laws.{Distinct, IsTable, addconn_from_lem}
use cs.Overlay.Connect.{Sockets, after_addconn, dial, connect_round, connect_rounds, connect_nbrs}

-- connectNbrs as a walk over the entries from the one of round `i` on, without the table.
abbrev pub dialled : ℕ → Sockets → ℕ → List NbrEntry → ℕ × (List NbrEntry × List Call)
dialled me os i [] = (1, ([], []))
dialled me os i (e ∷ es) =
    let fd = os.socket i in
    let (value, (rest, calls)) = dialled me os (suc i) es in
    if lt_int e.node me
    then if is_negative fd
      then (minus_one, (e ∷ es, []))
      else if os.connects i
      then (value, (record e { conn = fd } ∷ rest, connect e.ip fd ∷ calls))
      else (minus_one, (e ∷ es, connect e.ip fd ∷ close fd ∷ []))
    else (value, (e ∷ rest, calls))

-- Entries that are apart from those before them.
abbrev Behind : List NbrEntry → List NbrEntry → Type 0
Behind done es = All (λ e. All (λ f. f.node ≢ e.node) done) es

behind_more :
    (done : List NbrEntry) (e : NbrEntry) (es : List NbrEntry)
    → Behind done es
    → All (λ f. e.node ≢ f.node) es
    → Behind (done ++ e ∷ []) es
behind_more done e [] b d = tt
behind_more done e (f ∷ es) b d =
    (All-append (λ g. g.node ≢ f.node) done (e ∷ []) b.0 (d.0, tt), behind_more done e es b.1 d.1)

get_elem?-append :
    (done : List NbrEntry) (e : NbrEntry) (es : List NbrEntry) {i : ℕ}
    → i ≡ length done
    → get_elem? (done ++ e ∷ es) i ≡ some e
get_elem?-append [] e es h = rw h
get_elem?-append (d ∷ done) e es {i = zero} h = absurd (omega arith)
get_elem?-append (d ∷ done) e es {i = suc i} h = get_elem?-append done e es (omega arith)

-- A result with entries in front.
abbrev after : List NbrEntry → ℕ × (List NbrEntry × List Call) → ℕ × (List NbrEntry × List Call)
after done (value, (es, calls)) = (value, (done ++ es, calls))

-- What the walk needs of the entries to come.
record IsAhead (site : Site) (done es : List NbrEntry) : Type 0 where
  size : length (done ++ es) ≡ rounds (get_nbr_num site)
  behind : Behind done es
  distinct : Distinct es
  positive : All (λ e. is_positive e.node ≡ true) es
  addressed : All (λ e. get_node_id_from_ip e.ip ≡ e.node) es

ahead :
    (site : Site) (done : List NbrEntry) (e : NbrEntry) (es : List NbrEntry) (conn : ℕ)
    → IsAhead site done (e ∷ es)
    → IsAhead site (done ++ record e { conn = conn } ∷ []) es
ahead site done e es conn v = record {
  size =
      ap length (append_assoc done (record e { conn = conn } ∷ []) es)
      ∙ omega (
        arith,
        v.size,
        length-append done (e ∷ es),
        length-append done (record e { conn = conn } ∷ es),
      );
  behind = behind_more done (record e { conn = conn }) es v.behind.1 v.distinct.0;
  distinct = v.distinct.1;
  positive = v.positive.1;
  addressed = v.addressed.1;
}

addconn_here :
    (site : Site) (done : List NbrEntry) (e : NbrEntry) (es : List NbrEntry) (conn : ℕ)
    → IsAhead site done (e ∷ es)
    → nt_addconn site (done ++ e ∷ es) (get_node_id_from_ip e.ip) conn
      ≡ ok (1, done ++ record e { conn = conn } ∷ es)
unfolding nt_addconn
addconn_here site done e es conn v =
    rw (v.addressed.0, ← v.size, length-append done (e ∷ es))
      (addconn_from_lem done e es (length es) conn v.behind.0 v.positive.0)

-- The walk behind one more entry.
moved :
    (site : Site) (os : Sockets) (i : ℕ) (done : List NbrEntry) (e : NbrEntry) (es : List NbrEntry)
    (r : ℕ × (List NbrEntry × List Call))
    → connect_rounds site os (length es) i ((done ++ e ∷ []) ++ es) ≡ ok (after (done ++ e ∷ []) r)
    → connect_rounds site os (length es) i (done ++ e ∷ es) ≡ ok (r.0, (done ++ e ∷ r.1.0, r.1.1))
moved site os i done e es r h =
    rw (append_assoc done (e ∷ []) es, append_assoc done (e ∷ []) r.1.0) at h

connect_rounds_lem :
    (site : Site) (os : Sockets) (i : ℕ) (done es : List NbrEntry)
    → i ≡ length done
    → IsAhead site done es
    → connect_rounds site os (length es) i (done ++ es)
      ≡ ok (after done (dialled (get_my_node_id site) os i es))
unfolding connect_rounds connect_round dial after_addconn
connect_rounds_lem site os i done [] h v = refl
connect_rounds_lem site os i done (e ∷ es) h v =
    let fd = os.socket i in
    let found = get_elem?-append done e es h in
    let here = addconn_here site done e es fd v in
    let further : suc i ≡ length (done ++ record e { conn = fd } ∷ []) =
      omega (arith, h, length-append done (record e { conn = fd } ∷ [])) in
    let same : suc i ≡ length (done ++ e ∷ []) = omega (arith, h, length-append done (e ∷ [])) in
    let set =
      moved site os (suc i) done (record e { conn = fd }) es _
        (connect_rounds_lem site os (suc i) (done ++ record e { conn = fd } ∷ []) es further
          (ahead site done e es fd v)) in
    let kept = moved site os (suc i) done e es _ (
      connect_rounds_lem site os (suc i) (done ++ e ∷ []) es same
        (ahead site done e es e.conn v)) in
    elim (Bool-cases (lt_int e.node (get_my_node_id site))) [
      | inr larger ↦ rw (found, larger, kept)
      | inl smaller ↦ elim (Bool-cases (is_negative fd)) [
        | inl failed ↦ rw (found, smaller, failed)
        | inr opened ↦ elim (Bool-cases (os.connects i)) [
          | inr refused ↦ rw (found, smaller, opened, refused)
          | inl accepted ↦ rw (found, smaller, opened, accepted, here, set)
        ]
      ]
    ]

-- On a table of the neighbours connectNbrs does not fault, and is a walk over the entries, whatever the
-- system answers: it connects to each entry with a smaller node ID, whose own connection
-- nt_addconn sets, and returns 1; or it returns -1 at the first socket that cannot be made or
-- connected, keeping the connections that it has made.
pub connect_nbrs-dialled :
    (site : Site) (os : Sockets) (t : List NbrEntry)
    → IsTable site t
    → connect_nbrs site os t ≡ ok (dialled (get_my_node_id site) os 0 t)
unfolding connect_nbrs
connect_nbrs-dialled site os t v = rw (← v.size) (
    connect_rounds_lem site os 0 [] t refl (record {
      size = v.size;
      behind = alone t;
      distinct = v.distinct;
      positive = v.positive;
      addressed = v.addressed;
    }))
  where
    alone : (t : List NbrEntry) → Behind [] t
    alone [] = tt
    alone (e ∷ es) = (tt, alone es)
