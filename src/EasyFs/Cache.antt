-- ===== src/EasyFs/Cache.antt =====
-- easy-fs/src/block_cache.rs: the blocks held in memory. The queue owns its caches; `holders` counts
-- the references besides the queue's own, so that a strong count of 1 is no holder. A block that a
-- caller holds is named by its identifier. Values on the disk are their bytes.
pub mod Evict
pub mod Coherence
pub mod Same
pub mod Access
pub mod Modify
mod Tests
use r_corev.Prelude.{
  ℕ, ◌+◌, ◌-◌, Bool, true, false, Option, none, some, List, [], ◌∷◌, ◌++◌, length, take, drop, leb,
  ltb, ◌==◌, if◌then◌else◌, Run, ok, panic, ◌>>=◌, ◌>>◌, assert, unwrap,
}
use r_corev.EasyFs.Device.{BlockDevice, Block, block_sz}

pub record BlockCache : Type 0 where
  pub cache : Block
  pub block_id : ℕ
  pub modified : Bool

unfoldable pub new : {D : Type 0} → BlockDevice D → ℕ → D → BlockCache
new dev block_id d = record {
  cache = dev.read_block block_id d;
  block_id = block_id;
  modified = false;
}

-- The bytes of a value of `size` bytes at `offset`; the address is taken of the byte `cache[offset]`,
-- which must exist.
unfoldable pub get_ref : ℕ → ℕ → BlockCache → Run Block
get_ref offset size c = do
  assert (leb (offset + size) block_sz)
  assert (ltb offset block_sz)
  ok (take size (drop offset c.cache))

unfoldable pub read : {V : Type 0} → ℕ → ℕ → (Block → V) → BlockCache → Run V
unfolding get_ref
read offset size f c = do bytes ← get_ref offset size c; ok (f bytes)

-- `modify`: the closure changes the value in place, and its bytes are back in the cache.
unfoldable pub modify :
    {V : Type 0} → ℕ → ℕ → (Block → Block × V) → BlockCache → Run (V × BlockCache)
unfolding get_ref
modify offset size f c = do
  bytes ← get_ref offset size c
  let (bytes', v) = f bytes
  ok (
    v,
    record c {
      cache = take offset c.cache ++ bytes' ++ drop (offset + size) c.cache;
      modified = true;
    },
  )

-- `sync`, which `drop` calls.
unfoldable pub sync : {D : Type 0} → BlockDevice D → BlockCache → D → D
sync dev c d = if c.modified then dev.write_block c.block_id c.cache d else d

abbrev pub block_cache_size : ℕ
block_cache_size = 16

pub record Entry : Type 0 where
  pub id : ℕ
  pub block : BlockCache
  pub holders : ℕ

abbrev pub Queue : Type 0
Queue = List Entry

unfoldable pub find : ℕ → Queue → Option Entry
find block_id [] = none
find block_id (e ∷ q) = if e.id == block_id then some e else find block_id q

-- `Arc::clone` of the first cache of the block.
unfoldable pub hold : ℕ → Queue → Queue
hold block_id [] = []
hold block_id (e ∷ q) =
    if e.id == block_id then record e { holders = e.holders + 1 } ∷ q else e ∷ hold block_id q

-- A caller drops its reference.
unfoldable pub release : ℕ → Queue → Queue
release block_id [] = []
release block_id (e ∷ q) =
    if e.id == block_id then record e { holders = e.holders - 1 } ∷ q else e ∷ release block_id q

-- The first entry that nobody holds is taken out: `find` and `drain`.
unfoldable pub evict : Queue → Option (Entry × Queue)
evict [] = none
evict (e ∷ q) =
    let rest = evict q in
    if e.holders == 0
    then some (e, q)
    else elim rest [ none ↦ none | some (v, r) ↦ some (v, e ∷ r) ]

-- The new cache is read after the victim is synced.
unfoldable pub load_block : {D : Type 0} → BlockDevice D → ℕ → Queue → D → Queue × D
unfolding new
load_block dev block_id q d =
    (q ++ (record { id = block_id; block = new dev block_id d; holders = 1 } ∷ []), d)

unfoldable pub get_block_cache : {D : Type 0} → BlockDevice D → ℕ → Queue → D → Run (Queue × D)
unfolding load_block find hold evict sync
get_block_cache dev block_id q d = elim (find block_id q) [
  | some _ ↦ ok (hold block_id q, d)
  | none ↦
      if length q == block_cache_size
      then elim (evict q) [
        | none ↦ panic
        | some (v, r) ↦ ok (load_block dev block_id r (sync dev v.block d))
      ]
      else ok (load_block dev block_id q d)
]

-- `modify` through a reference that a caller holds.
unfoldable pub modify_held :
    {V : Type 0} → ℕ → ℕ → ℕ → (Block → Block × V) → Queue → Run (V × Queue)
unfolding modify
modify_held block_id offset size f [] = panic
modify_held block_id offset size f (e ∷ q) =
    let rest = modify_held block_id offset size f q in
    if e.id == block_id
    then modify offset size f e.block >>= (λ r. ok (r.0, record e { block = r.1 } ∷ q))
    else rest >>= (λ r. ok (r.0, e ∷ r.1))
