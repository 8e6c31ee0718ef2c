-- ===== src/System.antt =====
-- The system facts of src/system.rs: `SystemInfo::new`, `cpu_name` and `fastfetch`. The memory map
-- comes from the bootloader, and the `cpuid` instruction is a parameter.
mod Tests
pub mod Facts
use crab_os.Prelude.{
  ℕ, zero, suc, ◌+◌, ◌-◌, ◌*◌, ◌/◌, ◌%◌, ◌^◌, Bool, true, false, ◌&&◌, ◌||◌, Option, none, some,
  List, [], ◌∷◌, ◌++◌, map, reverse, length, take, drop, drop_while, replicate, leb, ltb, ◌==◌,
  if◌then◌else◌, has_bit, from_utf8, decimal, codes, decode, ◌>>=◌,
}
use crab_os.Vga.Console.{
  Color, black, blue, green, cyan, red, magenta, brown, light_gray, light_cyan, light_red, white,
}
use crab_os.Shell.Output.{Action, text, colors, print}

-- A region of the bootloader's memory map.
pub record MemoryRegion : Type 0 where
  pub is_usable : Bool
  pub start_addr : ℕ
  pub end_addr : ℕ

-- The four registers that `cpuid` leaves.
pub record Cpuid : Type 0 where
  pub eax : ℕ
  pub ebx : ℕ
  pub ecx : ℕ
  pub edx : ℕ

pub record SystemInfo : Type 0 where
  pub usable_memory : ℕ
  pub vendor : List ℕ
  pub brand : List ℕ
  pub virtualized : Bool

-- `region.range.end_addr() - region.range.start_addr()`, and the addition of `sum`.
abbrev pub size_of : MemoryRegion → Option ℕ
size_of r = if leb r.start_addr r.end_addr then some (r.end_addr - r.start_addr) else none

abbrev pub add_u64 : ℕ → ℕ → Option ℕ
add_u64 a b = if ltb (a + b) (2 ^ 64) then some (a + b) else none

-- The sum over the usable regions, from the sum so far.
unfoldable pub sum_usable : ℕ → List MemoryRegion → Option ℕ
sum_usable sum [] = some sum
sum_usable sum (r ∷ regions) =
    (if r.is_usable then (size_of r >>= add_u64 sum) else some sum) >>= λ sum'.
    sum_usable sum' regions

-- `to_le_bytes` of a `u32`.
abbrev pub to_le_bytes : ℕ → List ℕ
to_le_bytes n = n % 256 ∷ n / 256 % 256 ∷ n / 65536 % 256 ∷ n / 16777216 % 256 ∷ []

-- `bytes[start..start + 4].copy_from_slice(word)`, for a word of four bytes.
unfoldable pub copy_word : List ℕ → ℕ → List ℕ → Option (List ℕ)
copy_word bytes start word =
    if leb (start + 4) (length bytes)
    then some (take start bytes ++ (word ++ drop (start + 4) bytes))
    else none

module _ (cpuid : ℕ → Cpuid) where
  unfoldable pub read_vendor : Option (List ℕ)
  unfolding copy_word
  read_vendor = do
    let base = cpuid 0
    v1 ← copy_word (replicate 12 0) 0 (to_le_bytes base.ebx)
    v2 ← copy_word v1 4 (to_le_bytes base.edx)
    copy_word v2 8 (to_le_bytes base.ecx)

  -- The four words of a leaf.
  unfoldable pub read_leaf : ℕ → List ℕ → Option (List ℕ)
  unfolding copy_word
  read_leaf index brand = do
    let leaf = cpuid (0x80000002 + index)
    b0 ← copy_word brand (index * 16 + 0 * 4) (to_le_bytes leaf.eax)
    b1 ← copy_word b0 (index * 16 + 1 * 4) (to_le_bytes leaf.ebx)
    b2 ← copy_word b1 (index * 16 + 2 * 4) (to_le_bytes leaf.ecx)
    copy_word b2 (index * 16 + 3 * 4) (to_le_bytes leaf.edx)

  unfoldable pub read_brand : Option (List ℕ)
  unfolding read_leaf
  read_brand =
      let brand = replicate 48 0 in
      if leb 0x80000004 (cpuid 0x80000000).eax
      then (read_leaf 0 brand >>= λ b. read_leaf 1 b >>= read_leaf 2)
      else some brand

  -- `SystemInfo::new`
  unfoldable pub new : List MemoryRegion → Option SystemInfo
  new memory_map = do
    usable_memory ← sum_usable 0 memory_map
    vendor ← read_vendor
    brand ← read_brand
    some (record {
      usable_memory = usable_memory;
      vendor = vendor;
      brand = brand;
      virtualized = leb 1 (cpuid 0).eax && has_bit 31 (cpuid 1).ecx;
    })

-- `char::is_whitespace`
abbrev pub is_whitespace : ℕ → Bool
is_whitespace c =
    (leb 9 c && leb c 13)
    || c == 32
    || c == 0x85
    || c == 0xa0
    || c == 0x1680
    || (leb 0x2000 c && leb c 0x200a)
    || c == 0x2028
    || c == 0x2029
    || c == 0x202f
    || c == 0x205f
    || c == 0x3000

-- `text.trim_matches(p)`
abbrev pub trim_matches : (ℕ → Bool) → List ℕ → List ℕ
trim_matches p t = reverse (drop_while p (reverse (drop_while p t)))

-- `core::str::from_utf8(bytes).unwrap_or(default)`, as characters.
abbrev pub text_or : List ℕ → Option (List ℕ) → List ℕ
text_or default none = default
text_or default (some bytes) = decode bytes

abbrev pub or_if_empty : List ℕ → List ℕ → List ℕ
or_if_empty default [] = default
or_if_empty default (c ∷ cs) = c ∷ cs

unfoldable pub cpu_name : SystemInfo → List ℕ
cpu_name info =
    or_if_empty (text_or (codes "Unknown x86_64 CPU") (from_utf8 info.vendor))
      (trim_matches is_whitespace (trim_matches (λ c. c == 0) (text_or [] (from_utf8 info.brand))))

-- The heap's size, `HEAP_SIZE`.
abbrev pub heap_size : ℕ
heap_size = 100 * 1024

-- Hours, minutes and seconds.
abbrev pub uptime_text : ℕ → List ℕ
uptime_text seconds =
    decimal (seconds / 3600)
    ++ (codes "h "
        ++ (decimal (seconds / 60 % 60) ++ (codes "m " ++ (decimal (seconds % 60) ++ codes "s"))))

abbrev pub logo : List (List ℕ)
logo =
    codes "                    "
    ∷ codes "     _     _        "
    ∷ codes "    (v)   (v)       "
    ∷ codes "     \\_____ /       "
    ∷ codes "   __/ o o \\__      "
    ∷ codes "  / _\\_____/ _\\     "
    ∷ codes "  \\ \\|     |/ /     "
    ∷ codes "   \\_|_____|_/      "
    ∷ codes "    / /   \\ \\       "
    ∷ codes "   /_/     \\_\\      "
    ∷ codes "                    "
    ∷ codes "      C R A B       "
    ∷ []

-- The label of a row, by the row's index.
abbrev pub labels : List (List ℕ)
labels =
    codes "shaolin@crabos"
    ∷ codes "------------"
    ∷ codes "OS"
    ∷ codes "Kernel"
    ∷ codes "CPU"
    ∷ codes "Platform"
    ∷ codes "Uptime"
    ∷ codes "RAM (boot usable)"
    ∷ codes "Heap (payload)"
    ∷ codes "Shell"
    ∷ codes "Terminal"
    ∷ []

abbrev pub label_at : List (List ℕ) → ℕ → List ℕ
label_at [] index = []
label_at (label ∷ rest) zero = label
label_at (label ∷ rest) (suc index) = label_at rest index

-- The colored squares of the last row.
abbrev pub palette : List Color → List Action
palette [] = []
palette (color ∷ rest) = colors color color ∷ print "   " ∷ palette rest

-- What `fastfetch` reads besides the facts: the version of the build, the clock and the heap's count.
pub record Readings : Type 0 where
  pub version : List ℕ
  pub uptime_seconds : ℕ
  pub requested_bytes : ℕ

-- The second `match` on a row's index.
abbrev pub row_value : Readings → SystemInfo → ℕ → List Action
row_value r info index =
    if index == 2
    then text (codes "CrabOS " ++ (r.version ++ codes " x86_64")) ∷ []
    else if index == 3
    then print "CrabOS-kern" ∷ []
    else if index == 4
    then text (take 48 (cpu_name info)) ∷ []
    else if index == 5
    then (if info.virtualized then print "Virtual machine" else print "PC") ∷ []
    else if index == 6
    then text (uptime_text r.uptime_seconds) ∷ []
    else if index == 7
    then text (decimal (info.usable_memory / 1024 / 1024) ++ codes " MiB") ∷ []
    else if index == 8
    then text (
        decimal r.requested_bytes
        ++ (codes " B / " ++ (decimal (heap_size / 1024) ++ codes " KiB")))
      ∷ []
    else if index == 9
    then print "crabsh (built-in)" ∷ []
    else if index == 10
    then print "VGA 80x25 / PS/2" ∷ []
    else if index == 11
    then palette (red ∷ green ∷ brown ∷ blue ∷ magenta ∷ cyan ∷ light_gray ∷ white ∷ [])
    else []

-- One round of the loop over the logo.
abbrev pub fetch_row : Readings → SystemInfo → ℕ → List ℕ → List Action
fetch_row r info index line =
    colors light_red black
    ∷ text (line ++ codes "  ")
    ∷ colors light_cyan black
    ∷ text (label_at labels index)
    ∷ ((if leb 2 index && leb index 10 then colors light_gray black ∷ print ": " ∷ [] else [])
        ++ (row_value r info index ++ colors light_gray black ∷ text (10 ∷ []) ∷ []))

unfoldable pub fetch_rows : Readings → SystemInfo → ℕ → List (List ℕ) → List Action
fetch_rows r info index [] = []
fetch_rows r info index (line ∷ rest) =
    fetch_row r info index line ++ fetch_rows r info (index + 1) rest

unfoldable pub fastfetch : Readings → SystemInfo → List Action
unfolding fetch_rows
fastfetch r info = fetch_rows r info 0 logo ++ text (10 ∷ []) ∷ []
