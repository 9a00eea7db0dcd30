-- ===== src/Table/FilterBlock/Reader.antt =====
-- `FilterBlockReader` of table/filter_block.h and table/filter_block.cc. A method runs under the
-- reader's mutex, hence as one step. `FilterUnitsNumberInternal` waits until the background thread
-- has run `InitLoadFilter`; the methods that call it are modelled in the state after that.
use rally_db.Prelude.{
  ℕ, zero, suc, ◌+◌, ◌-◌, ◌*◌, ◌/◌, ◌%◌, ◌^◌, List, [], ◌∷◌, ◌++◌, Bool, true, false, ◌&&◌, Option,
  none, some, ltb, leb, ◌==◌, if◌then◌else◌, length, get_or, take, drop,
}
use rally_db.Util.Status.{Status, ok, corruption, is_ok}
use rally_db.Util.Coding.{Bytes, decode_fixed32, decode_fixed64}
use rally_db.Table.FilterBlock.{FilterPolicy, all_filter_units_number, life_time}

pub record FilterBlockReader : Type 0 where
  pub offset : Bytes
  pub disk_offset : ℕ
  pub disk_size : ℕ
  pub init_units_number : ℕ
  pub all_units_number : ℕ
  pub base_lg : ℕ
  pub num : ℕ
  pub reload_units_number : ℕ
  pub access_time : ℕ
  pub sequence : ℕ
  pub file : ℕ
  pub filter_units : List Bytes
  pub init_done : Bool

-- The constructor. On short contents it leaves the numbers about the units unset: they then hold what
-- `memory`, where the object is made, held. (Its two other early returns test whether a `uint32_t` is below 0.)
unfoldable pub new_reader :
    (memory : FilterBlockReader) (contents : Bytes) (file : ℕ) → FilterBlockReader
new_reader memory contents file =
    let n = length contents in
    let blank : FilterBlockReader = record memory {
      offset = [];
      base_lg = 0;
      num = 0;
      access_time = 0;
      sequence = 0;
      file = file;
      filter_units = [];
      init_done = false;
    } in
    if ltb n 25 then blank else record blank {
      offset = contents;
      disk_offset = decode_fixed64 (drop (n - 21) contents);
      disk_size = decode_fixed32 (drop (n - 13) contents);
      init_units_number = decode_fixed32 (drop (n - 9) contents);
      all_units_number = decode_fixed32 (drop (n - 5) contents);
      base_lg = get_or contents (n - 1) 0;
      num = (n - 25) / 4;
      reload_units_number = decode_fixed32 (drop (n - 9) contents);
    }

unfoldable pub update_state : FilterBlockReader → ℕ → FilterBlockReader
update_state r sn = record r { sequence = sn; access_time = (r.access_time + 1) % 2 ^ 64 }

abbrev pub filter_units_number : FilterBlockReader → ℕ
filter_units_number r = length r.filter_units

abbrev pub load_filter_number : FilterBlockReader → ℕ
load_filter_number r = r.init_units_number

abbrev pub one_unit_size : FilterBlockReader → ℕ
one_unit_size r = r.disk_size

-- `Size`, in 64 bits.
abbrev pub size : FilterBlockReader → ℕ
size r = filter_units_number r * r.disk_size % 2 ^ 64

unfoldable pub set_access_time : FilterBlockReader → ℕ → FilterBlockReader
set_access_time r access_time = record r { access_time = access_time }

unfoldable pub is_cold : FilterBlockReader → ℕ → Bool
is_cold r now_sequence = leb ((r.sequence + life_time) % 2 ^ 64) now_sequence

abbrev pub can_be_loaded : FilterBlockReader → Bool
can_be_loaded r = ltb (filter_units_number r) r.all_units_number

abbrev pub can_be_evict : FilterBlockReader → Bool
can_be_evict r = ltb 0 (filter_units_number r)

module _ (policy : FilterPolicy) where
  -- The loop over the loaded units, from number `i` on: `filter` is the part `[start, limit)` of each.
  unfoldable pub units_match : Bytes → (start limit i : ℕ) → List Bytes → Bool
  units_match key start limit i [] = true
  units_match key start limit i (unit ∷ units) =
      policy.key_may_match key (take (limit - start) (drop start unit)) i
      && units_match key start limit (i + 1) units

  unfoldable pub key_may_match : FilterBlockReader → (block_offset : ℕ) → Bytes → Bool
  key_may_match r block_offset key =
      let index = block_offset / 2 ^ r.base_lg in
      let start = decode_fixed32 (drop (index * 4) r.offset) in
      let limit = decode_fixed32 (drop (index * 4 + 4) r.offset) in
      if ltb index r.num
      then (if leb start limit && leb limit r.disk_size
          then units_match key start limit 0 r.filter_units
          else if start == limit
          then false
          else true)
      else true

-- `ReadBlock` of table/format.cc on a file, an offset and a size: its status and the contents. It is
-- any function here.
module _ (read_block : ℕ → ℕ → ℕ → Status × Bytes) where
  -- Every unit takes `disk_size_` bytes and the trailer of a block, which has 5.
  unfoldable pub load_filter : FilterBlockReader → Status × FilterBlockReader
  load_filter r =
      let units_index = length r.filter_units in
      let place = (r.disk_offset + (r.disk_size + 5) * units_index) % 2 ^ 64 in
      if leb r.all_units_number units_index
      then (corruption "all filter units were loaded", r)
      else (let (s, contents) = read_block r.file place r.disk_size in
          elim (is_ok s) [
            | true ↦ (s, record r { filter_units = r.filter_units ++ (contents ∷ []) })
            | false ↦ (s, r)
          ])

-- `pop_back`
unfoldable pub pop_back : List Bytes → List Bytes
pop_back [] = []
pop_back (u ∷ []) = []
pop_back (u ∷ v ∷ us) = u ∷ pop_back (v ∷ us)

unfoldable pub evict_filter : FilterBlockReader → Status × FilterBlockReader
evict_filter r =
    if length r.filter_units == 0
    then (corruption "there is no filter can be  evicted", r)
    else (ok, record r { filter_units = pop_back r.filter_units })

-- The loops. A round of loading adds a unit and a round of evicting takes one away, so the number of
-- units that are to be added or taken away is enough fuel.
module _ (read_block : ℕ → ℕ → ℕ → Status × Bytes) where
  unfoldable pub load_loop : ℕ → ℕ → FilterBlockReader → Status × FilterBlockReader
  load_loop zero target r = (ok, r)
  load_loop (suc fuel) target r = elim (ltb (length r.filter_units) target) [
    | true ↦
        let (s, r') = load_filter read_block r in
        elim (is_ok s) [ true ↦ load_loop fuel target r' | false ↦ (s, r') ]
    | false ↦ (ok, r)
  ]

  -- `InitLoadFilter`, with the end of `CondVarSignal`, which sets `init_done`.
  unfoldable pub init_load_filter : FilterBlockReader → Status × FilterBlockReader
  init_load_filter r =
      let (s, r') = load_loop r.init_units_number r.init_units_number r in
      (s, record r' { init_done = true })

pub evict_loop : ℕ → ℕ → FilterBlockReader → Status × FilterBlockReader
evict_loop zero target r = (ok, r)
evict_loop (suc fuel) target r = elim (ltb target (length r.filter_units)) [
  | true ↦
      let (s, r') = evict_filter r in
      elim (is_ok s) [ true ↦ evict_loop fuel target r' | false ↦ (s, r') ]
  | false ↦ (ok, r)
]

unfoldable pub clean_filter : FilterBlockReader → Status × FilterBlockReader
clean_filter r =
    evict_loop (length r.filter_units) 0
      (record r { reload_units_number = length r.filter_units % 2 ^ 32 })

-- `GoBackToInitFilter`; a null file, `none`, leaves the old one.
unfoldable pub go_back_to_init_filter :
    (read_block : ℕ → ℕ → ℕ → Status × Bytes)
    → FilterBlockReader
    → Option ℕ
    → Status × FilterBlockReader
go_back_to_init_filter read_block r file =
    let r' : FilterBlockReader = record r { file = elim file [ none ↦ r.file | some f ↦ f ] } in
    let target = r.reload_units_number in
    if ltb all_filter_units_number target
    then (corruption "init units number is too much", r')
    else (let (s, r'') = load_loop read_block target target r' in
        elim (is_ok s) [
          | true ↦ evict_loop (length r''.filter_units) target r''
          | false ↦ (s, r'')
        ])
