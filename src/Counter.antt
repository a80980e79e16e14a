-- ===== src/Counter.antt =====
-- common/counter/traffic.go: the traffic of the users of one node, by uuid or tag. A storage has the
-- two words of its atomic counters.
pub mod Counts
pub mod Conn
mod Tests
use v2bx_outbound.Base.{ℕ, String, Option, none, some, List, [], length, add_int}
use v2bx_outbound.Base.Map.{lookup, insert, delete, value, string_key}

pub record TrafficStorage : Type 0 where
  pub up_counter : ℕ
  pub down_counter : ℕ

abbrev pub TrafficCounter : Type 0
TrafficCounter = List (String × TrafficStorage)

abbrev pub new_storage : TrafficStorage
new_storage = record { up_counter = 0; down_counter = 0 }

unfoldable pub new_traffic_counter : TrafficCounter
new_traffic_counter = []

-- The storage of the user, which is stored first if there is none.
unfoldable pub get_counter : String → TrafficCounter → TrafficCounter × TrafficStorage
get_counter uuid c = elim (lookup uuid c) [
  | some storage ↦ (c, storage)
  | none ↦ (insert uuid new_storage c, new_storage)
]

unfoldable pub get_up_count : String → TrafficCounter → ℕ
get_up_count uuid c = elim (lookup uuid c) [ none ↦ 0 | some storage ↦ storage.up_counter ]

unfoldable pub get_down_count : String → TrafficCounter → ℕ
get_down_count uuid c = elim (lookup uuid c) [ none ↦ 0 | some storage ↦ storage.down_counter ]

unfoldable pub len : TrafficCounter → ℕ
len c = length c

unfoldable pub reset : String → TrafficCounter → TrafficCounter
reset uuid c = elim (lookup uuid c) [ none ↦ c | some storage ↦ insert uuid new_storage c ]

unfoldable pub remove : String → TrafficCounter → TrafficCounter
remove uuid c = delete uuid c

unfoldable pub rx : String → ℕ → TrafficCounter → TrafficCounter
rx uuid n c =
    let found = get_counter uuid c in
    let storage = found.1 in
    insert uuid (record storage { down_counter = add_int storage.down_counter n }) found.0

unfoldable pub tx : String → ℕ → TrafficCounter → TrafficCounter
tx uuid n c =
    let found = get_counter uuid c in
    let storage = found.1 in
    insert uuid (record storage { up_counter = add_int storage.up_counter n }) found.0
