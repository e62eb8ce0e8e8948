-- ===== src/FreeMap/Law.antt =====
-- The allocation and release of sectors against the set of sectors in use.
use qba.Prelude.{
  ℕ, ◌+◌, ◌≤◌, ◌≡◌, refl, subst, ◌∙◌, Bool, true, false, not, ◌&&◌, arith, none, some, ◌⊎◌, inl,
  inr, Bool-cases,
}
use qba.Prelude.Outcome.{ok, panic}
use qba.Bitmap.{bitmap_all}
use qba.Bitmap.Single.{IsValid, has}
use qba.Bitmap.Multiple.{Written, Written-IsValid, bitmap_set_multiple_lem}
use qba.Bitmap.Scan.{AllAre, SomeIs, bitmap_contains_lem, bitmap_scan_and_flip_lem}
use qba.FreeMap.{FreeMap, free_map_allocate, free_map_release}

abbrev pub used : FreeMap → ℕ → Bool
used m j = has m.free_map j

-- An allocation takes `cnt` sectors that nobody used, inside the device, and marks these and no
-- other; or it answers none and leaves the use of every sector as it was, and then either the write
-- to the file failed or every run of `cnt` sectors has one in use.
pub free_map_allocate_lem :
    (cnt : ℕ) (written : Bool) (m : FreeMap)
    → IsValid m.free_map
    → ((i : ℕ) × (m' : FreeMap) × (free_map_allocate cnt written m ≡ ok (some i, m'))
        × (i + cnt ≤ m.free_map.bit_cnt)
        × AllAre m.free_map i cnt false
        × (m'.has_file ≡ m.has_file)
        × Written m.free_map m'.free_map i cnt true)
      ⊎ ((m' : FreeMap) × (free_map_allocate cnt written m ≡ ok (none, m'))
          × ((j : ℕ) → used m' j ≡ used m j)
          × (((m.has_file ≡ true) × (written ≡ false))
              ⊎ ((k : ℕ) → k + cnt ≤ m.free_map.bit_cnt → SomeIs m.free_map k cnt true)))
unfolding free_map_allocate
free_map_allocate_lem cnt written m v =
    elim (bitmap_scan_and_flip_lem m.free_map 0 cnt false v (omega arith)) [
      | inl (i, b', e, p, q, all, w) ↦ elim (Bool-cases (m.has_file && not written)) [
        | inr kept ↦
            inl (i, record m { free_map = b' }, rw e (ground (arith, v.small)), q, all, refl, w)
        | inl failed ↦
            let (b, f, z) =
              bitmap_set_multiple_lem {b = b'} i cnt false (Written-IsValid w v)
                (ground (arith, w.same_cnt)) in
            inr (
              record m { free_map = b },
              rw e (ground (arith, v.small, f)),
              λ j. ground (arith, z.bits j, w.bits j, all j),
              inl (ground arith, ground arith),
            )
      ]
      | inr (e, none_left) ↦
          inr (m, rw e (ground arith), λ j. refl, inr λ k p. none_left k (omega arith) p)
    ]

-- Once the free map file is open, a release of sectors that are all in use frees these and no other; if one of them is free already
-- the kernel halts.
pub free_map_release_lem :
    (sector cnt : ℕ) (m : FreeMap)
    → IsValid m.free_map
    → m.has_file ≡ true
    → sector + cnt ≤ m.free_map.bit_cnt
    → ((m' : FreeMap) × (free_map_release sector cnt m ≡ ok m')
        × AllAre m.free_map sector cnt true
        × Written m.free_map m'.free_map sector cnt false)
      ⊎ ((free_map_release sector cnt m ≡ panic) × SomeIs m.free_map sector cnt false)
unfolding free_map_release bitmap_all
free_map_release_lem sector cnt m v file h =
    elim (bitmap_contains_lem m.free_map sector cnt false v h) [
      | inl (e, found) ↦ inr (rw e refl, found)
      | inr (e, all) ↦
          let (b, f, w) = bitmap_set_multiple_lem {b = m.free_map} sector cnt false v h in
          inl (record m { free_map = b }, rw e (rw (f, file) refl), all, w)
    ]

Restores : ℕ → ℕ → FreeMap → FreeMap → Type 0
Restores cnt i m m' =
    (m'' : FreeMap) × (free_map_release i cnt m' ≡ ok m'') × ((j : ℕ) → used m'' j ≡ used m j)

restores :
    (cnt i : ℕ) (m m' : FreeMap)
    → IsValid m.free_map
    → m'.has_file ≡ true
    → i + cnt ≤ m.free_map.bit_cnt
    → AllAre m.free_map i cnt false
    → Written m.free_map m'.free_map i cnt true
    → Restores cnt i m m'
unfolding Restores
restores cnt i m m' v file h all w =
    elim (free_map_release_lem i cnt m' (Written-IsValid w v) file (ground (arith, w.same_cnt))) [
      | inl (m'', e, r, z) ↦ (m'', e, λ j. ground (arith, z.bits j, w.bits j, all j))
      | inr (e, (j, p, q, r)) ↦ absurd (ground (arith, w.bits j))
    ]

-- Where the free map file is open, sectors that have been allocated can be released, which restores the use of every sector.
pub free_map_release-allocate :
    (cnt i : ℕ) (written : Bool) (m m' : FreeMap)
    → IsValid m.free_map
    → m.has_file ≡ true
    → free_map_allocate cnt written m ≡ ok (some i, m')
    → (m'' : FreeMap) × (free_map_release i cnt m' ≡ ok m'') × ((j : ℕ) → used m'' j ≡ used m j)
unfolding Restores
free_map_release-allocate cnt i written m m' v file e =
    elim (free_map_allocate_lem cnt written m v) [
      | inl (i₁, m₁, f, p, all, kept, w) ↦
          let same : m₁ ≡ m' = cc in
          let first : i₁ ≡ i = cc in
          subst (λ m'. Restores cnt i m m') same
            (subst (λ i. Restores cnt i m m₁) first (restores cnt i₁ m m₁ v (kept ∙ file) p all w))
      | inr (m₁, f, same, why) ↦ absurd cc
    ]
