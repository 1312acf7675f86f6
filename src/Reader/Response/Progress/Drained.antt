-- ===== src/Reader/Response/Progress/Drained.antt =====
-- How the loop of a client of the response reader ends on one buffer.
use boost_http.Base.{◌+◌, ◌*◌, Option, none, some, ◌≡◌, refl, arith}
use boost_http.Header.{Boost, IsBoost}
use boost_http.Reader.Loop.{Reads, Ends, measure-Ends}
use boost_http.Reader.Request.Progress.{is_over}
use boost_http.Reader.Request.Progress.Loop.{unread, measure, rank-le}
use boost_http.Reader.Request.Progress.Drained.{EmptyValue-cases}
use boost_http.Reader.Response.State.{Response}
use boost_http.Reader.Response.Next.{next}
use boost_http.Reader.Response.Mirror.{mirror}
use boost_http.Reader.Response.Safety.{Inv, Returns}
use boost_http.Reader.Response.Safety.Fault.{EmptyValue, next-Inv}
use boost_http.Reader.Response.Progress.{next-measure}

pub returned : (o : Option Response) → Returns Inv o → (r : Response) × (o ≡ some r) × Inv r
returned none h = absurd h
returned (some r) h = (r, refl, h)

abbrev pub response_reads : (b : Boost) → IsBoost b → Reads Response
response_reads b laws = record {
  next = next b;
  is_over = λ r. is_over (mirror r);
  Good = Inv;
  Stuck = EmptyValue;
  measure = λ r. measure (mirror r);
  stuck_or_not = λ r. EmptyValue-cases (mirror r);
  next_returns = λ r h ne. returned (next b r) (next-Inv b r laws h ne);
  next_less = next-measure b;
}

-- From a response reader that satisfies the invariant, with `unread` bytes of its buffer behind the
-- token, calling `next` until it holds an error, wants more data or stands before an empty field
-- value ends in at most `4 * unread + 4` calls, with a reader that satisfies the invariant, whether
-- the end of the connection is known or not.
pub response_next-Ends :
    (b : Boost) (r : Response) (laws : IsBoost b)
    → Inv r
    → Ends (response_reads b laws) (4 * unread (mirror r) + 4) r
response_next-Ends b r laws h =
    let le = rank-le (mirror r).state in
    measure-Ends (response_reads b laws) (4 * unread (mirror r) + 4) r h (omega arith)
