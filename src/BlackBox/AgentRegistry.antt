-- ===== src/BlackBox/AgentRegistry.antt =====
-- src/blackbox/agent_registry.cpp. The `AgentEntry` objects stand on a heap, by address; the three
-- indices hold addresses. A use of an address that is not live is a fault.
pub mod Index
pub mod Sound
pub mod Destroy
pub mod Agree
use v_net.Base.{
  ℕ, Option, none, some, List, [], ◌∷◌, ℤ, nat_eq, int_eq, text_eq, Text, length, ◌>>=◌,
}
use v_net.Base.Map.{find, insert, erase}

pub record AgentEntry : Type 0 where
  pub name : Text
  pub virtual_ipv4 : ℕ
  pub fd : ℤ

abbrev pub Heap : Type 0
Heap = List (ℕ × AgentEntry)

pub record AgentRegistry : Type 0 where
  pub heap : Heap
  pub by_ipv4 : List (ℕ × ℕ)
  pub by_fd : List (ℤ × ℕ)
  pub by_name : List (Text × ℕ)

abbrev pub empty_registry : AgentRegistry
empty_registry = record { heap = []; by_ipv4 = []; by_fd = []; by_name = [] }

-- `entry->name` and the like.
abbrev pub deref : ℕ → AgentRegistry → Option AgentEntry
deref p r = find p r.heap

-- `remove_entry`, with its `delete`.
pub remove_entry : Option ℕ → AgentRegistry → Option AgentRegistry
remove_entry none r = some r
remove_entry (some p) r = do
  entry ← deref p r
  some (record r {
    heap = erase p r.heap;
    by_ipv4 = erase entry.virtual_ipv4 r.by_ipv4;
    by_fd = erase entry.fd r.by_fd;
    by_name = erase entry.name r.by_name;
  })

-- What `register_agent` does with the object that `new (std::nothrow)` gave, if it gave one.
add_entry : Option ℕ → AgentEntry → AgentRegistry → AgentRegistry × Option ℕ
add_entry none entry r = (r, none)
add_entry (some p) entry r = (
  record r {
    heap = insert p entry r.heap;
    by_ipv4 = insert entry.virtual_ipv4 p r.by_ipv4;
    by_fd = insert entry.fd p r.by_fd;
    by_name = insert entry.name p r.by_name;
  },
  some p,
)

-- `unregister_by_name`, and the first part of `register_agent`.
pub unregister_by_name : Text → AgentRegistry → Option AgentRegistry
unregister_by_name name r = elim (find name r.by_name) [
  | none ↦ some r
  | some p ↦ remove_entry (some p) r
]

unfoldable pub register_agent :
    Option ℕ → Text → ℕ → ℤ → AgentRegistry → Option (AgentRegistry × Option ℕ)
unfolding unregister_by_name add_entry
register_agent new_entry name virtual_ipv4 fd r = do
  r' ← unregister_by_name name r
  some (add_entry new_entry (record { name = name; virtual_ipv4 = virtual_ipv4; fd = fd }) r')

pub unregister_by_fd : ℤ → AgentRegistry → Option AgentRegistry
unregister_by_fd fd r = elim (find fd r.by_fd) [ none ↦ some r | some p ↦ remove_entry (some p) r ]

unfoldable pub find_by_ipv4 : ℕ → AgentRegistry → Option ℕ
find_by_ipv4 ipv4 r = find ipv4 r.by_ipv4

unfoldable pub find_by_fd : ℤ → AgentRegistry → Option ℕ
find_by_fd fd r = find fd r.by_fd

pub find_by_name : Text → AgentRegistry → Option ℕ
find_by_name name r = find name r.by_name

pub size : AgentRegistry → ℕ
size r = length r.by_name

-- `for (auto& [name, entry] : by_name_) delete entry;`
delete_all : List (Text × ℕ) → Heap → Option Heap
delete_all [] heap = some heap
delete_all ((name, p) ∷ rest) heap = do entry ← find p heap; delete_all rest (erase p heap)

-- `~AgentRegistry`
pub destroy : AgentRegistry → Option AgentRegistry
unfolding delete_all
destroy r = do
  heap ← delete_all r.by_name r.heap
  some (record { heap = heap; by_ipv4 = []; by_fd = []; by_name = [] })
