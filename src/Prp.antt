-- ===== src/Prp.antt =====
-- The walk over the physical regions of a command, prp1, prp2 and the list that prp2 may point to, as
-- `__do_perform_io` of io.c and `__prp_transfer_data` of zns_mgmt_recv.c do it.
use nvmevirt_slc_cache.Common.{
  ℕ, zero, suc, ◌+◌, ◌-◌, ◌%◌, min, Option, none, some, List, [], ◌∷◌, ltb, ◌==◌, if◌then◌else◌,
}
pub mod Cover

-- `PAGE_SIZE`
abbrev pub page_size : ℕ
page_size = 4096

-- One `memcpy`: `size` bytes at the physical address and at an offset of the buffer.
pub record Copy : Type 0 where
  pub paddr : ℕ
  pub offset : ℕ
  pub size : ℕ

-- The variables of the walk; `list` is `paddr_list`, none where it is NULL.
pub record Walk : Type 0 where
  pub prp_offs : ℕ
  pub prp2_offs : ℕ
  pub list : Option ℕ

-- What the host has set up: the two fields of the command, the entries of a list by its address, and
-- the address at which the walk reads the list that prp2 points to.
pub record Prps : Type 0 where
  pub prp1 : ℕ
  pub prp2 : ℕ
  pub entry : ℕ → ℕ → ℕ
  pub list_base : ℕ → ℕ

-- The next entry of the list; a list that was never set is a null pointer.
unfoldable pub list_entry : Prps → Walk → Option (ℕ × Walk)
list_entry x w = elim w.list [
  | none ↦ none
  | some base ↦ some (x.entry base w.prp2_offs, record w { prp2_offs = w.prp2_offs + 1 })
]

-- The address of the next region.
unfoldable pub next_paddr : Prps → ℕ → Walk → Option (ℕ × Walk)
unfolding list_entry
next_paddr x remaining w =
    let v = record w { prp_offs = w.prp_offs + 1 } in
    if v.prp_offs == 1
    then some (x.prp1, v)
    else if v.prp_offs == 2
    then (if ltb page_size remaining
        then list_entry x (record v { list = some (x.list_base x.prp2) })
        else some (x.prp2, v))
    else list_entry x v

-- The bytes of a region: up to the end of its page.
unfoldable pub chunk : ℕ → ℕ → ℕ
chunk paddr remaining =
    let io_size = min remaining page_size in
    let mem_offs = paddr % page_size in
    if ltb page_size (io_size + mem_offs) then page_size - mem_offs else io_size

-- `while (remaining)`, on fuel.
unfoldable pub walk : ℕ → Prps → ℕ → ℕ → Walk → Option (List Copy)
unfolding next_paddr chunk
walk zero x remaining offset w = if remaining == 0 then some [] else none
walk (suc fuel) x remaining offset w =
    let step : Option (List Copy) = elim (next_paddr x remaining w) [
      | none ↦ none
      | some (paddr, v) ↦
          let n = chunk paddr remaining in
          elim (walk fuel x (remaining - n) (offset + n) v) [
            | none ↦ none
            | some rest ↦ some (record { paddr = paddr; offset = offset; size = n } ∷ rest)
          ]
    ] in
    if remaining == 0 then some [] else step

-- The copies of a whole command, from an offset of the buffer on.
unfoldable pub transfer : Prps → ℕ → ℕ → Option (List Copy)
unfolding walk
transfer x offset length =
    walk length x length offset (record { prp_offs = 0; prp2_offs = 0; list = none })
