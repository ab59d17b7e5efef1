-- ===== src/Discovery/Registry.antt =====
-- common/discovery/static/registry.go, with the types of common/discovery/registry.go. A
-- weight is a natural number. A watch is its channel: a number that tells it apart, and the events that wait in it, of which
-- it holds 16.
pub mod Lookup
mod Examples
use Prim.Native.String.{◌++◌}
use game01_server.Prelude.{ℕ, Bool, Option, none, some, List, [], ◌∷◌, String}
use game01_server.Prelude.Tests.{ltb, ◌==◌, if◌then◌else◌}
use game01_server.Prelude.Eq.{str_eq, string_eq}
use game01_server.Prelude.Lists.{length}
use game01_server.Prelude.Maps.{Map, get, put, del}

pub record Registration : Type 0 where
  pub service : String
  pub instance_name : String
  pub address : String
  pub version : String
  pub weight : ℕ
  pub zone : String

pub data Event : Type 0 where
  put_event delete_event : Registration → Event

pub record Channel : Type 0 where
  pub number : ℕ
  pub waiting : List Event

pub record Registry : Type 0 where
  pub items : Map String Registration
  pub watches : Map String (List Channel)

unfoldable pub key : String → String → String
key service instance_name = service ++ ("/" ++ instance_name)

abbrev pub key_of : Registration → String
key_of r = key r.service r.instance_name

-- The last of the items with a key stays.
unfoldable pub put_all : Map String Registration → List Registration → Map String Registration
put_all m [] = m
put_all m (r ∷ rs) = put_all (put m (key_of r) r) rs

unfoldable pub new_registry : List Registration → Registry
unfolding put_all
new_registry items = record { items = put_all [] items; watches = [] }

unfoldable pub push : List Event → Event → List Event
push [] e = e ∷ []
push (x ∷ xs) e = x ∷ push xs e

-- A full channel drops the event.
abbrev pub send : Event → Channel → Channel
send e ch = if ltb (length ch.waiting) 16 then record ch { waiting = push ch.waiting e } else ch

unfoldable pub send_all : Event → List Channel → List Channel
unfolding push
send_all e [] = []
send_all e (ch ∷ chs) = send e ch ∷ send_all e chs

abbrev pub channels : Option (List Channel) → List Channel
channels none = []
channels (some chs) = chs

unfoldable pub publish_locked :
    Map String (List Channel) → String → Event → Map String (List Channel)
unfolding send_all
publish_locked watches service e = elim (get watches service) [
  | none ↦ watches
  | some chs ↦ put watches service (send_all e chs)
]

unfoldable pub register_item : Registry → Registration → Registry
unfolding publish_locked
register_item r item = record {
  items = put r.items (key_of item) item;
  watches = publish_locked r.watches item.service (put_event item);
}

-- The function that `Register` returns.
unfoldable pub close_item : Registry → Registration → Registry
unfolding publish_locked
close_item r item = record {
  items = del r.items (key_of item);
  watches = publish_locked r.watches item.service (delete_event item);
}

unfoldable pub discover_in : Map String Registration → String → List Registration
discover_in [] service = []
discover_in ((k, item) ∷ rest) service =
    let found = discover_in rest service in
    if str_eq item.service service then item ∷ found else found

unfoldable pub discover : Registry → String → List Registration
unfolding discover_in
discover r service = discover_in r.items service

unfoldable pub add_channel : List Channel → ℕ → List Channel
add_channel [] n = record { number = n; waiting = [] } ∷ []
add_channel (ch ∷ chs) n = ch ∷ add_channel chs n

-- The watch with a number that no other has.
unfoldable pub watch : Registry → String → ℕ → Registry
unfolding add_channel
watch r service n = record r {
  watches = put r.watches service (add_channel (channels (get r.watches service)) n);
}

-- The end of a watch's context.
unfoldable pub remove_channel : List Channel → ℕ → List Channel
remove_channel [] n = []
remove_channel (ch ∷ chs) n =
    let rest = remove_channel chs n in if ch.number == n then chs else ch ∷ rest

unfoldable pub unwatch : Registry → String → ℕ → Registry
unfolding remove_channel
unwatch r service n = elim (get r.watches service) [
  | none ↦ r
  | some chs ↦ record r { watches = put r.watches service (remove_channel chs n) }
]
