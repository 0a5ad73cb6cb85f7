-- ===== src/Buffer.antt =====
-- A buffer of the C heap or stack that holds a C string: what `calloc`, `memcpy`, `strcpy` and
-- `strcat` do to it. A write past its end is recorded, and the model goes on with the text that the
-- code meant to write.
use swap_it_registry_module.Prelude.{
  ℕ, ◌+◌, Bool, false, not, ◌||◌, [], ◌++◌, Bytes, length, take, ltb, leb,
}

pub record Buffer : Type 0 where
  pub capacity : ℕ
  pub contents : Bytes
  pub overflowed : Bool

-- `calloc(n, 1)`, or an array of `n` characters before its first use
abbrev pub calloc : ℕ → Buffer
calloc n = record { capacity = n; contents = []; overflowed = false }

-- `memcpy(b, s, strlen(s))` to the start of a buffer of zeros: no terminator is written.
abbrev pub memcpy : Buffer → Bytes → Buffer
memcpy b s = record b { contents = s; overflowed = b.overflowed || not (leb (length s) b.capacity) }

-- `strcpy` and `strcat`, with the terminator that they write
abbrev pub strcpy : Buffer → Bytes → Buffer
strcpy b s = record b { contents = s; overflowed = b.overflowed || not (ltb (length s) b.capacity) }

abbrev pub strcat : Buffer → Bytes → Buffer
strcat b s = record b {
  contents = b.contents ++ s;
  overflowed = b.overflowed || not (ltb (length b.contents + length s) b.capacity);
}

-- `b[i] = '\0'`
abbrev pub terminate : Buffer → ℕ → Buffer
terminate b i = record b {
  contents = take i b.contents;
  overflowed = b.overflowed || not (ltb i b.capacity);
}
