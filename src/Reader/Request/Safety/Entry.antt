-- ===== src/Reader/Request/Safety/Entry.antt =====
-- The invariant at the entry points of the reader.
use boost_http.Base.{ℕ, ◌++◌, drop, Bytes, arith, length-append, length-drop, Bool-cases, inl, inr}
use boost_http.Header.{Boost, IsBoost}
use boost_http.Reader.Request.State.{Version, Request, construct, reset}
use boost_http.Reader.Request.Next.{is_insufficient, set_buffer}
use boost_http.Reader.Request.Safety.{Inv, Returns}
use boost_http.Reader.Request.Safety.Plain.{EmptyValue}
use boost_http.Reader.Request.Safety.Total.{next-Inv}

-- A new reader satisfies the invariant whatever its two uninitialised members hold, and so does
-- a reader that was reset.
pub entry-Inv : (v : Version) (n : ℕ) (r : Request) → Inv (construct v n) × Inv (reset r)
unfolding construct reset
entry-Inv v n r = (ground arith, ground arith)

-- The reader at the beginning of a new buffer.
abbrev pub rebuffered : Bytes → Request → Request
rebuffered buffer r = record r { ibuffer = buffer; idx = 0 }

-- A new buffer that begins with the unread bytes of the old one, and behind which no empty
-- field value stands at the reader's place: `set_buffer` returns and keeps the invariant.
pub set_buffer-Inv :
    (b : Boost) (r : Request) (more : Bytes)
    → IsBoost b
    → Inv r
    → ¬ EmptyValue (rebuffered (drop r.idx r.ibuffer ++ more) r)
    → Returns Inv (set_buffer b (drop r.idx r.ibuffer ++ more) r)
unfolding set_buffer
set_buffer-Inv b r more laws h ne =
    let buffer = drop r.idx r.ibuffer ++ more in
    let inv : Inv (rebuffered buffer r) = record {
      in_bounds = omega (
        arith,
        h.in_bounds,
        length-append (drop r.idx r.ibuffer) more,
        length-drop r.idx r.ibuffer,
      );
      reading = h.reading;
      partial_static = h.partial_static;
    } in
    elim (Bool-cases (is_insufficient r.code)) [
      | inl wait ↦ rw wait (next-Inv b (rebuffered buffer r) laws inv ne)
      | inr done ↦ rw done inv
    ]
