-- ===== src/Services/Page.antt =====
-- The rows that a tool shows of those it found: app/services, `rows.sort(key=...)` and `rows[:limit]`.
use istanbulmcp.Prelude.{ℕ, ◌≡◌, refl, Bool, List, some, length, length-take, min, ltb, arith, ap}
use istanbulmcp.Prelude.Int.{ℤ, pos_part}
use istanbulmcp.Prelude.Sort.{sort, IsOrder, length-sort}
use istanbulmcp.Prelude.Rows.{IsFront, sort-IsFront}
use istanbulmcp.Envelope.{FreshnessStatus, result_info}
use istanbulmcp.Cache.{CachedSourceData, Outcome, returned, raised}
use istanbulmcp.Validation.{Validated, raises, accepts, ◌>>=◌}
use istanbulmcp.Services.{Reply, page, ask, answered, SourceError, exceeded, failure}

-- The front of all that was found, and the numbers that go with it.
pub record IsPage {R W : Type 0} (le : R → R → Bool) (limit : ℤ) (found : List R) (r : Reply R W)
    : Type 0 where
  pub front : IsFront le (pos_part limit) found r.shown
  pub matched : r.result.matched ≡ some (length found)
  pub returned : r.result.returned ≡ length r.shown
  pub truncated : r.result.truncated ≡ some (ltb (pos_part limit) (length found))

shorter : (n m : ℕ) → ltb (min n m) m ≡ ltb n m
shorter n m = ground arith

pub page-IsPage :
    {R W : Type 0} (le : R → R → Bool)
    → IsOrder le
    → (limit : ℤ) (found : List R) (f : FreshnessStatus) (ws : List W)
    → IsPage le limit found (page limit (sort le found) f ws)
unfolding page result_info
page-IsPage le o limit found f ws =
    let n = pos_part limit in
    let size = length-sort le found in
    record {
      front = sort-IsFront le o n found;
      matched = ap some size;
      returned = refl;
      truncated = rw (length-take n (sort le found), size) (ap some (shorter n (length found)));
    }

-- A tool answers only arguments that were accepted, and only with data that its source returned.
pub ask-answered :
    {Q V M R W : Type 0} (m : Validated Q) (o : Outcome V M SourceError)
    (f : Q → CachedSourceData V M SourceError → Reply R W) (r : Reply R W)
    → ask m o f ≡ answered r
    → (q : Q) × (c : CachedSourceData V M SourceError) × (m ≡ accepts q)
      × (o ≡ returned c)
      × (f q c ≡ r)
unfolding ask
ask-answered (raises error) o f r h = absurd (ground arith)
ask-answered (accepts q) (raised (exceeded delay)) f r h = absurd (ground arith)
ask-answered (accepts q) (raised (failure error)) f r h = absurd (ground arith)
ask-answered (accepts q) (returned c) f r h = (q, c, refl, refl, ground arith)

-- A chain of validators accepts what its last accepts, after each before it.
pub accepts-bind :
    {T U : Type 0} (m : Validated T) (next : T → Validated U) (u : U)
    → (m >>= next) ≡ accepts u
    → (t : T) × (m ≡ accepts t) × (next t ≡ accepts u)
accepts-bind (raises error) next u h = absurd (ground arith)
accepts-bind (accepts t) next u h = (t, refl, h)
