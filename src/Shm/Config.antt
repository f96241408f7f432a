-- ===== src/Shm/Config.antt =====
-- The choice of the queue type in ClientOpen of rpc_ffi.go.
use notnets_grpc.Prelude.{◌≡◌, ◌≢◌, ◌↔◌, sym, [], Option, none, some, arith, if◌then◌else◌}
use notnets_grpc.Text.{Text, codes, text_eq, text_eq_iff}
use notnets_grpc.Dict.{Dict, lookup}

pub data QueueType : Type 0 where
  poll adaptive_poll hybrid_mean_poll umwait sem : QueueType

-- The map that json.Unmarshal leaves in `result`: empty if the file cannot be read or parsed.
abbrev pub ConfigFile : Type 0
ConfigFile = Dict Text

-- result["queue_type"], "" for a missing key
or_empty : Option Text → Text
or_empty none = []
or_empty (some t) = t

choose : Text → QueueType
choose t =
    if text_eq t (codes "POLL")
    then poll
    else if text_eq t (codes "ADAPTIVE_POLL")
    then adaptive_poll
    else if text_eq t (codes "HYBRID_MEAN_POLL")
    then hybrid_mean_poll
    else if text_eq t (codes "UMWAIT")
    then umwait
    else if text_eq t (codes "SEM")
    then sem
    else adaptive_poll

unfoldable pub queue_type_of : ConfigFile → QueueType
unfolding or_empty choose text_eq lookup
queue_type_of config = choose (or_empty (lookup (codes "queue_type") config))

-- The name of each type in the file.
pub type_name : QueueType → Text
type_name poll = codes "POLL"
type_name adaptive_poll = codes "ADAPTIVE_POLL"
type_name hybrid_mean_poll = codes "HYBRID_MEAN_POLL"
type_name umwait = codes "UMWAIT"
type_name sem = codes "SEM"

choose_iff :
    (o : Option Text) (q : QueueType)
    → q ≢ adaptive_poll
    → (choose (or_empty o) ≡ q) ↔ (o ≡ some (type_name q))
unfolding choose or_empty type_name text_eq
choose_iff none q other = (λ h. absurd (other (sym h)), λ h. cc)
choose_iff (some t) q other = ground (
  arith,
  text_eq_iff t (codes "POLL"),
  text_eq_iff t (codes "ADAPTIVE_POLL"),
  text_eq_iff t (codes "HYBRID_MEAN_POLL"),
  text_eq_iff t (codes "UMWAIT"),
  text_eq_iff t (codes "SEM"),
)

-- A type other than the default is chosen exactly when the file names it; every other text, and no
-- text, means adaptive polling.
pub queue_type_of_iff :
    (config : ConfigFile) (q : QueueType)
    → q ≢ adaptive_poll
    → (queue_type_of config ≡ q) ↔ (lookup (codes "queue_type") config ≡ some (type_name q))
unfolding queue_type_of type_name
queue_type_of_iff config q other = choose_iff (lookup (codes "queue_type") config) q other
