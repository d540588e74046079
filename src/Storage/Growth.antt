-- ===== src/Storage/Growth.antt =====
-- How a file grows (crates/gems-storage/src/file.rs), and the index that the manager gives a new extent
-- (manager.rs).
use Prim.Native.Nat.{bit_and}
use gems.Prelude.{
  ℕ, zero, suc, ◌+◌, ◌-◌, ◌*◌, ◌/◌, ◌<◌, ◌^◌, ◌≡◌, ◌↔◌, refl, ap, ◌∙◌, true, not, if◌then◌else◌,
  some, arith,
}
use gems.Prelude.Results.{err, invalid_value}
use gems.Common.Bits.{bit_and-double, bit_and-ones}
use gems.Storage.Manager.{
  extent_size, Outcome, done, ◌>>=◌, ExtentFile, round_up_to_os_page, grow_by_one_extent, extended,
  create,
}

abbrev ones : ℕ
ones = 2 ^ 52 - 1

-- Clearing the twelve low bits of a word.
clear_low : (x : ℕ) → x < 2 ^ 64 → bit_and x (4096 * ones) ≡ x / 4096 * 4096
clear_low x h =
    let x1 = x / 2 in
    let x2 = x1 / 2 in
    let x3 = x2 / 2 in
    let x4 = x3 / 2 in
    let x5 = x4 / 2 in
    let x6 = x5 / 2 in
    let x7 = x6 / 2 in
    let x8 = x7 / 2 in
    let x9 = x8 / 2 in
    let x10 = x9 / 2 in
    let x11 = x10 / 2 in
    let x12 = x11 / 2 in
    omega (
      arith,
      bit_and-double x (2048 * ones),
      bit_and-double x1 (1024 * ones),
      bit_and-double x2 (512 * ones),
      bit_and-double x3 (256 * ones),
      bit_and-double x4 (128 * ones),
      bit_and-double x5 (64 * ones),
      bit_and-double x6 (32 * ones),
      bit_and-double x7 (16 * ones),
      bit_and-double x8 (8 * ones),
      bit_and-double x9 (4 * ones),
      bit_and-double x10 (2 * ones),
      bit_and-double x11 ones,
      bit_and-ones 52 x12 (omega arith),
    )

-- An extent's size, rounded up to pages of 4096 bytes.
abbrev pub rounded : ℕ
rounded = 16785408

-- On pages of 4096 bytes.
round_up-grown :
    (n : ℕ) → n < 2 ^ 39 → round_up_to_os_page 4096 (n * rounded + extent_size) ≡ suc n * rounded
unfolding round_up_to_os_page
round_up-grown n h = clear_low (n * rounded + extent_size + 4096 - 1) (omega arith) ∙ omega arith

-- `n` calls of grow_by_one_extent.
unfoldable pub grow_times : ℕ → ℕ → ExtentFile → Outcome ExtentFile
grow_times zero page file = done file
grow_times (suc n) page file =
    grow_times n page file >>= λ file'. grow_by_one_extent page file' >>= λ r. done (r.0)

pub record IsGrown (n : ℕ) (file : ExtentFile) : Type 0 where
  pub still_writable : file.writable ≡ true
  pub whole_pages : file.mapped_len ≡ n * rounded

pub grow_once :
    (n : ℕ) (file : ExtentFile)
    → n < 2 ^ 39
    → IsGrown n file
    → (grow_by_one_extent 4096 file ≡ done (extended 4096 file, n * rounded))
      × IsGrown (suc n) (extended 4096 file)
unfolding grow_by_one_extent
grow_once n file h grown =
    let new : round_up_to_os_page 4096 (file.mapped_len + extent_size) ≡ suc n * rounded =
      ap (λ l. round_up_to_os_page 4096 (l + extent_size)) grown.whole_pages ∙ round_up-grown n h in
    (
      ap
            (λ w.
              if not w
              then some (err (invalid_value "cannot grow a read-only extent file"))
              else done (extended 4096 file, file.mapped_len))
            grown.still_writable
          ∙ ap (λ o. done (extended 4096 file, o)) grown.whole_pages,
      record { still_writable = grown.still_writable; whole_pages = new },
    )

grow_times-IsGrown :
    (n : ℕ) (file : ExtentFile)
    → n < 2 ^ 39
    → IsGrown 0 file
    → (file' : ExtentFile) × (grow_times n 4096 file ≡ done file') × IsGrown n file'
unfolding grow_times
grow_times-IsGrown zero file h fresh = (file, refl, fresh)
grow_times-IsGrown (suc n) file h fresh =
    let (file', run, grown) = grow_times-IsGrown n file (omega arith) fresh in
    let (once, grown') = grow_once n file' (omega arith) grown in
    (extended 4096 file', rw run (rw once refl), grown')

-- A new file that has grown by n extents on pages of 4096 bytes, so that the manager's list has n entries,
-- grows at an offset whose index is n as long as n is below 4114, and never from there on.
pub grown_index :
    (n file_id : ℕ)
    → n < 2 ^ 39
    → (file : ExtentFile) × (file' : ExtentFile) × (offset : ℕ) × (grow_times n 4096
          (create file_id).file
        ≡ done file)
      × (grow_by_one_extent 4096 file ≡ done (file', offset))
      × ((offset / extent_size ≡ n) ↔ (n < 4114))
unfolding create
grown_index n file_id h =
    let fresh : IsGrown 0 ((create file_id).file) = record {
      still_writable = refl;
      whole_pages = refl;
    } in
    let (file, run, grown) = grow_times-IsGrown n ((create file_id).file) h fresh in
    let (once, grown') = grow_once n file h grown in
    (
      file,
      extended 4096 file,
      n * rounded,
      run,
      once,
      (λ same. omega (arith, same), λ few. omega (arith, few)),
    )
