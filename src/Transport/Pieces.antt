-- ===== src/Transport/Pieces.antt =====
-- The segments that mrt_client_send makes, as pieces of what its calls have kept, which is
-- called `given` here.
use cs.Base.{
  ℕ, zero, suc, ◌%◌, ◌≤◌, ◌≡◌, refl, sym, ap, ◌∙◌, List, [], ◌∷◌, ◌++◌, length, take, drop, All,
  arith, length-append, drop-append, length-take, length-drop, take-append_le,
}
use cs.Wire.Layout.{Segment, data_segment, max_seg_len}
use cs.Server.Tcb.{Tcb}
use cs.Server.Handler.Stream.{IsPiece, InStream}
use cs.Client.Buffer.{SendBuffer, numbered, full_segment}
use cs.Client.Buffer.Window.{segments}

drop-append_le : (n : ℕ) (xs ys : List ℕ) → n ≤ length xs → drop n (xs ++ ys) ≡ drop n xs ++ ys
drop-append_le zero xs ys h = refl
drop-append_le (suc n) [] ys h = absurd (omega arith)
drop-append_le (suc n) (x ∷ xs) ys h = drop-append_le n xs ys (omega arith)

-- A piece of what was given is a piece of what is given then.
IsPiece-append :
    (given more : List ℕ) (seg : Segment) → IsPiece given seg → IsPiece (given ++ more) seg
IsPiece-append given more seg p =
    let n = seg.header.length in
    let s = seg.header.seq_num in
    record {
      inside = omega (arith, p.inside, length-append given more);
      short = p.short;
      full = p.full;
      same =
          p.same
          ∙ sym
              (take-append_le n (drop s given) more (omega (arith, p.inside, length-drop s given)))
          ∙ ap (take n) (sym (drop-append_le s given more (omega (arith, p.inside))));
    }

pub InStream-append :
    (given more got : List ℕ) (t : Tcb) → InStream given got t → InStream (given ++ more) got t
InStream-append given more got t v = record {
  bounded = omega (arith, v.bounded, length-append given more);
  fits = v.fits;
  prefix = v.prefix ∙ sym (take-append_le t.expect_seq given more v.bounded);
}

-- A DATA segment with the ports of the connection, and a piece of what was given that is of full
-- length.
pub record IsSendable (given : List ℕ) (src dest : ℕ) (seg : Segment) : Type 0 where
  pub piece : IsPiece given seg
  pub type_is : seg.header.type ≡ data_segment
  pub from : seg.header.src_port ≡ src
  pub to : seg.header.dest_port ≡ dest
  pub whole : seg.header.length ≡ 1464
  pub aligned : seg.header.seq_num % 1464 ≡ 0

pub IsSendable-append :
    (given more : List ℕ) (src dest : ℕ) (seg : Segment)
    → IsSendable given src dest seg
    → IsSendable (given ++ more) src dest seg
IsSendable-append given more src dest seg h = record {
  piece = IsPiece-append given more seg h.piece;
  type_is = h.type_is;
  from = h.from;
  to = h.to;
  whole = h.whole;
  aligned = h.aligned;
}

-- The segment of one round of mrt_client_send.
pub full-IsSendable :
    (given bytes : List ℕ) (src dest seq : ℕ)
    → seq ≡ length given
    → length given % 1464 ≡ 0
    → 1464 ≤ length bytes
    → IsSendable
        (given ++ take max_seg_len bytes)
        src
        dest
        (numbered seq (full_segment src dest (take max_seg_len bytes)))
unfolding numbered full_segment
full-IsSendable given bytes src dest seq e a h =
    let size : length (take max_seg_len bytes) ≡ 1464 =
      omega (arith, length-take max_seg_len bytes, h) in
    record {
      piece = record {
        inside = omega (arith, e, size, length-append given (take max_seg_len bytes));
        short = omega arith;
        full = size;
        same = ap (take max_seg_len) (
            sym (drop-append given (take max_seg_len bytes))
            ∙ ap (λ k. drop k (given ++ take max_seg_len bytes)) (sym e));
      };
      type_is = refl;
      from = refl;
      to = refl;
      whole = refl;
      aligned = omega (arith, e, a);
    }

-- A send buffer whose nodes are pieces of what was given, up to its end.
pub record Holds (given : List ℕ) (src dest : ℕ) (b : SendBuffer) : Type 0 where
  pub ends : b.next_seq ≡ length given
  pub aligned : length given % 1464 ≡ 0
  pub sendable : All (IsSendable given src dest) (segments b.chain)
