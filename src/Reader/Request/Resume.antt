-- ===== src/Reader/Request/Resume.antt =====
-- Reading on: a reader that wants more data, and the same reader with a longer buffer.
pub mod Words
pub mod Unchanged
pub mod Leaves
pub mod Moved
pub mod Pieces
pub mod ChunkExt
pub mod Whole
use boost_http.Base.{◌++◌, Option, none, some, Bytes, true, ◌≡◌, ap, ◌∙◌}
use boost_http.Header.{Boost}
use boost_http.Reader.Request.State.{State, errored, Request}
use boost_http.Reader.Request.Next.{is_insufficient, next}

-- The reader with more bytes behind its buffer.
abbrev pub extend : Bytes → Request → Request
extend more r = record r { ibuffer = r.ibuffer ++ more }

-- The reader less the size of the token when that is an error: the cases that look at a token
-- piecewise leave there what they had seen of it.
settle_in : State → Request → Request
settle_in errored r = record r { token_size = 0 }
settle_in _ r = r

unfoldable pub settle : Request → Request
unfolding settle_in
settle r = settle_in r.state r

-- A handler that wants more data has changed nothing.
abbrev pub Waits : Request → Option Request → Type 0
Waits r none = Unit {0}
Waits r (some r') = is_insufficient r'.code ≡ true → r' ≡ r

abbrev pub settled : Option Request → Option Request
settled none = none
settled (some r) = some (settle r)

-- A call that wants more data: with more data, `next` gives `o` from where the call has left it.
abbrev pub ResumesTo : Boost → Bytes → Option Request → Option Request → Type 0
ResumesTo b more o none = Unit {0}
ResumesTo b more o (some r) =
    is_insufficient r.code ≡ true → settled (next b (extend more r)) ≡ settled o

pub Waits-ResumesTo :
    (b : Boost) (more : Bytes) (r : Request) (o call : Option Request)
    → next b (extend more r) ≡ o
    → Waits r call
    → ResumesTo b more o call
Waits-ResumesTo b more r o none e w = tt
Waits-ResumesTo b more r o (some r') e w =
    λ u. ap (λ x. settled (next b (extend more x))) (w u) ∙ ap settled e
