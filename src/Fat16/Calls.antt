-- ===== src/Fat16/Calls.antt =====
-- `fat16_read`, `fat16_seek` and `fat16_stat` of fs/fat/fat16.c.
use peach_os64bit_module_two.Common.{
  ℕ, zero, suc, ◌+◌, ◌-◌, ◌*◌, ◌%◌, ◌<◌, ◌≤◌, ◌≡◌, refl, ap, ◌∙◌, subst, arith, some, if◌then◌else◌,
}
use peach_os64bit_module_two.Status.{Result, ok}
use peach_os64bit_module_two.Memory.{Mem}
use peach_os64bit_module_two.Memory.Laws.{within}
use peach_os64bit_module_two.Streamer.Read.{Serves}
use peach_os64bit_module_two.Fat16.{
  FatPrivate, FatDirectoryItem, FatFileDescriptor, first_cluster, size_of_cluster_bytes,
  read_internal, read_members, after_members, fat16_read,
}
use peach_os64bit_module_two.Fat16.Chain.{IsChain, TableFits}
use peach_os64bit_module_two.Fat16.Round.{content, DataFits, join_reads}
use peach_os64bit_module_two.Fat16.Read.{read_internal-content}

module _ {A : Type 0} (fetch : A → ℕ → Result (ℕ → ℕ) × A) (disk : ℕ → ℕ) (fat : FatPrivate)
    (count half last : ℕ) (serves : Serves fetch disk fat.sector_size count)
    (table : TableFits fat count half last) (chain : ℕ → ℕ) (n end : ℕ)
    (c : IsChain fat disk chain n) (data_fits : DataFits fat chain n end count) where
  members_step :
      (nmemb : ℕ) (st : A) (m : Mem) (offset size out : ℕ) (m' : Mem) (st' : A)
      → read_internal fetch fat st m (chain 0) offset size out ≡ some (ok size, m', st')
      → read_members fetch (suc nmemb) fat st m (chain 0) offset size out
        ≡ read_members fetch nmemb fat st' m' (chain 0) (offset + size) size (out + size)
  unfolding read_members
  members_step nmemb st m offset size out m' st' done = rw (read_members, done) refl

  members-content :
      (nmemb : ℕ) (st : A) (m : Mem) (offset size out : ℕ)
      → offset + nmemb * size ≤ size_of_cluster_bytes fat * (n + 1)
      → ((k : ℕ) → k < nmemb → (offset + k * size) % fat.sector_size ≡ 0)
      → (m' : Mem) × (st' : A) × (read_members fetch nmemb fat st m (chain 0) offset size out
          ≡ some (ok (offset + nmemb * size), m', st'))
        × ((a : ℕ)
            → m' a ≡ (
                if within out (nmemb * size) a
                then content fat disk chain (offset + (a - out))
                else m a))
  unfolding read_members
  members-content zero st m offset size out bound aligned =
      (m, st, ap (λ o. some (ok o, m, st)) (omega arith), λ a. ground arith)
  members-content (suc nmemb) st m offset size out bound aligned =
      let start : offset % fat.sector_size ≡ 0 =
        ap (λ o. o % fat.sector_size) (omega arith) ∙ aligned 0 (omega arith) in
      let (m', st', done, bytes) =
        read_internal-content fetch disk fat count half last serves table chain n end c data_fits st
          m offset size out (omega (arith, bound)) start in
      let (m'', st'', done', bytes') =
        members-content nmemb st' m' (offset + size) size (out + size) (omega (arith, bound))
          (λ k lt.
            ap (λ o. o % fat.sector_size) (omega arith) ∙ aligned (k + 1) (omega (arith, lt))) in
      let all : suc nmemb * size ≡ size + nmemb * size = omega arith in
      let rest : nmemb * size ≡ suc nmemb * size - size = omega (arith, all) in
      (
        m'',
        st'',
        members_step nmemb st m offset size out m' st' done
            ∙ done'
            ∙ ap (λ o. some (ok o, m'', st'')) (omega (arith, all)),
        join_reads m m' m'' (content fat disk chain) offset out size (suc nmemb * size)
            (omega (arith, all)) bytes
            (λ a.
              subst
                (λ k. m'' a ≡ (
                  if within (out + size) k a
                  then content fat disk chain (offset + size + (a - (out + size)))
                  else m' a))
                rest (bytes' a)),
      )

  -- For a file whose clusters are such a chain, on sectors below 2 GiB, where each member begins at
  -- the start of a sector of the file and all lie within the chain, fat16_read ends, answers the
  -- number of members, puts exactly their bytes of the file from the position on at its output, and
  -- moves the position behind them.
  pub fat16_read-content :
      (st : A) (m : Mem) (desc : FatFileDescriptor) (item : FatDirectoryItem) (size nmemb out : ℕ)
      → first_cluster item ≡ chain 0
      → desc.pos + nmemb * size ≤ size_of_cluster_bytes fat * (n + 1)
      → ((k : ℕ) → k < nmemb → (desc.pos + k * size) % fat.sector_size ≡ 0)
      → (m' : Mem) × (st' : A) × (fat16_read fetch fat st m desc item size nmemb out
          ≡ some (ok nmemb, record desc { pos = desc.pos + nmemb * size }, m', st'))
        × ((a : ℕ)
            → m' a ≡ (
                if within out (nmemb * size) a
                then content fat disk chain (desc.pos + (a - out))
                else m a))
  unfolding fat16_read after_members
  fat16_read-content st m desc item size nmemb out first bound aligned =
      let (m', st', done, bytes) = members-content nmemb st m desc.pos size out bound aligned in
      (
        m',
        st',
        ap (λ k. after_members desc nmemb (read_members fetch nmemb fat st m k desc.pos size out))
              first
            ∙ ap (after_members desc nmemb) done,
        bytes,
      )
