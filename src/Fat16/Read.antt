-- ===== src/Fat16/Read.antt =====
-- The reads of fs/fat/fat16.c: the bytes of a file.
use peach_os64bit_module_two.Common.{
  ℕ, zero, suc, ◌+◌, ◌-◌, ◌*◌, ◌/◌, ◌%◌, ◌<◌, ◌≤◌, ◌≡◌, refl, ap, ◌∙◌, arith, Option, some,
  if◌then◌else◌,
}
use peach_os64bit_module_two.Status.{Result, ok}
use peach_os64bit_module_two.Memory.{Mem}
use peach_os64bit_module_two.Memory.Laws.{within}
use native.Mathlib.Nat.{div-add-mod, div-lt_iff_lt-mul, mul-mod_left}
use peach_os64bit_module_two.Streamer.Read.{Serves}
use peach_os64bit_module_two.Fat16.{
  FatPrivate, get_cluster_for_offset, size_of_cluster_bytes, total_to_read, read_cluster,
  read_clusters, bytes_read, read_internal,
}
use peach_os64bit_module_two.Fat16.Round.{
  content, DataFits, size_lem, total_to_read-bounds, join_reads, cluster_sized, cluster_bound,
  round-Delivers, round-bytes,
}
use peach_os64bit_module_two.Fat16.Chain.{IsChain, TableFits, get_cluster_for_offset-chain}

-- The result of a read: the bytes of the file from an offset on.
pub record ReadsFile {A : Type 0} (fat : FatPrivate) (disk chain : ℕ → ℕ) (m : Mem)
    (offset total out : ℕ) (r : Option (Result (Unit {0}) × Mem × A)) : Type 0 where
  pub memory : Mem
  pub state : A
  pub done : r ≡ some (ok tt, memory, state)
  pub bytes :
      (a : ℕ)
      → memory a ≡ (if within out total a then content fat disk chain (offset + (a - out)) else m a)

module _ {A : Type 0} (fetch : A → ℕ → Result (ℕ → ℕ) × A) (disk : ℕ → ℕ) (fat : FatPrivate)
    (count half last : ℕ) (serves : Serves fetch disk fat.sector_size count)
    (table : TableFits fat count half last) (chain : ℕ → ℕ) (n end : ℕ)
    (c : IsChain fat disk chain n) (data_fits : DataFits fat chain n end count) where
  -- A round of the loop.
  round_lem :
      (fuel : ℕ) (st : A) (m : Mem) (offset total out : ℕ)
      → offset / size_of_cluster_bytes fat ≤ n
      → offset % fat.sector_size ≡ 0
      → let st' = (get_cluster_for_offset fetch fat st (chain 0) offset).1 in
        let r =
          read_cluster fetch fat st' m
            (chain (offset / size_of_cluster_bytes fat))
            offset
            (suc total)
            out in
        let t = total_to_read fat offset (suc total) in
        read_clusters fetch (suc fuel) fat st m (chain 0) offset (suc total) out
        ≡ read_clusters fetch fuel fat r.3 r.2 (chain 0) (offset + t) (suc total - t) (out + t)
  unfolding read_clusters
  round_lem fuel st m offset total out inside aligned =
      let st' = (get_cluster_for_offset fetch fat st (chain 0) offset).1 in
      let found =
        get_cluster_for_offset-chain fetch disk fat count half last serves table chain n c st offset
          inside in
      let served =
        (round-Delivers fetch disk fat count half last serves table chain n end c data_fits st' m
          offset (suc total) out inside aligned).succeeds in
      rw (read_clusters, found) (rw served refl)

  -- The next round begins at the start of a cluster.
  next-aligned :
      (offset total : ℕ)
      → let t = total_to_read fat offset total in 0 < total - t → (offset + t) % fat.sector_size ≡ 0
  next-aligned offset total more =
      let size : ℕ = size_of_cluster_bytes fat in
      let t : ℕ = total_to_read fat offset total in
      let (least, within_cluster, some_more, cut) = total_to_read-bounds fat offset total (
        cluster_bound fetch disk fat count half last serves table chain n end c data_fits offset) in
      let full : offset % size + t ≡ size = cut (omega (arith, more)) in
      let product : size * (offset / size + 1)
          ≡ (offset / size + 1) * fat.header.sectors_per_cluster * fat.sector_size =
        ap (λ b. b * (offset / size + 1)) (size_lem fat) ∙ omega arith in
      let at : offset + t ≡ (offset / size + 1) * fat.header.sectors_per_cluster * fat.sector_size =
        omega (arith, div-add-mod offset size, full, product) in
      ap (λ k. k % fat.sector_size) at
      ∙ mul-mod_left ((offset / size + 1) * fat.header.sectors_per_cluster) fat.sector_size

  first-inside :
      (offset total : ℕ)
      → offset + suc total ≤ size_of_cluster_bytes fat * (n + 1)
      → offset / size_of_cluster_bytes fat ≤ n
  first-inside offset total bound =
      let before : offset / size_of_cluster_bytes fat < n + 1 =
        (div-lt_iff_lt-mul
            (cluster_sized fetch disk fat count half last serves table chain n end c data_fits)).1
          (omega (arith, bound)) in
      omega (arith, before)

  read_clusters-ReadsFile :
      (fuel : ℕ) (st : A) (m : Mem) (offset total out : ℕ)
      → total ≤ fuel
      → offset + total ≤ size_of_cluster_bytes fat * (n + 1)
      → (0 < total → offset % fat.sector_size ≡ 0)
      → ReadsFile fat disk chain m offset total out
          (read_clusters fetch fuel fat st m (chain 0) offset total out)
  unfolding read_clusters
  read_clusters-ReadsFile fuel st m offset zero out enough bound aligned = record {
    memory = m;
    state = st;
    done = refl;
    bytes = λ a. ground arith;
  }
  read_clusters-ReadsFile zero st m offset (suc total) out enough bound aligned =
      absurd (omega (arith, enough))
  read_clusters-ReadsFile (suc fuel) st m offset (suc total) out enough bound aligned =
      let inside = first-inside offset total bound in
      let start = aligned (omega arith) in
      let t : ℕ = total_to_read fat offset (suc total) in
      let (least, within_cluster, more, cut) = total_to_read-bounds fat offset (suc total) (
        cluster_bound fetch disk fat count half last serves table chain n end c data_fits offset) in
      let some_bytes : 0 < t = more (omega arith) in
      let st' = (get_cluster_for_offset fetch fat st (chain 0) offset).1 in
      let r =
        read_cluster fetch fat st' m (chain (offset / size_of_cluster_bytes fat)) offset (suc total)
          out in
      let rest =
        read_clusters-ReadsFile fuel r.3 r.2 (offset + t) (suc total - t) (out + t)
          (omega (arith, enough, some_bytes)) (omega (arith, bound, least))
          (next-aligned offset (suc total)) in
      record {
        memory = rest.memory;
        state = rest.state;
        done = round_lem fuel st m offset total out inside start ∙ rest.done;
        bytes =
            join_reads m r.2 rest.memory (content fat disk chain) offset out t (suc total) least
              (round-bytes fetch disk fat count half last serves table chain n end c data_fits st' m
                offset (suc total) out inside start)
              rest.bytes;
      }

  -- For a chain of clusters that are served, from the start of a sector of the file on and within
  -- the chain, fat16_read_internal ends, answers the bytes asked for, and puts exactly the bytes of
  -- the file, through its clusters, at its output.
  pub read_internal-content :
      (st : A) (m : Mem) (offset total out : ℕ)
      → offset + total ≤ size_of_cluster_bytes fat * (n + 1)
      → offset % fat.sector_size ≡ 0
      → (m' : Mem) × (st' : A) × (read_internal fetch fat st m (chain 0) offset total out
          ≡ some (ok total, m', st'))
        × ((a : ℕ)
            → m' a
              ≡ (if within out total a then content fat disk chain (offset + (a - out)) else m a))
  unfolding read_internal bytes_read
  read_internal-content st m offset total out bound aligned =
      let r =
        read_clusters-ReadsFile total st m offset total out (omega arith) bound
          (λ some_bytes. aligned) in
      (r.memory, r.state, ap (bytes_read total) r.done, r.bytes)
