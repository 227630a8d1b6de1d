-- ===== src/Examples/Buffers.antt =====
-- The buffer of the emitters, with a `realloc` that grants up to 1024 bytes.
use teptris.Base.{ℕ, Bool, true, false, [], some, codes, replicate, leb, ◌≡◌, refl, arith}
use teptris.Emit.Buffer.{Ebuf, doubled, eb_reserve, eb_put, eb_c, eb_sep2}
use teptris.Emit.Buffer.Growth.{IsPut, eb_put-IsPut, eb_c-eb_put}

abbrev small_memory : ℕ → Bool
small_memory n = leb n 1024

abbrev fresh : Ebuf
fresh = record { text = []; cap = 0; failed = false }

abbrev full : Ebuf
full = record { text = replicate 255 b'a'; cap = 256; failed = false }

first_put :
    eb_put small_memory (codes "ab") fresh
    ≡ some (record { text = codes "ab"; cap = 256; failed = false })
unfolding eb_put eb_reserve doubled
first_put = refl

-- A single byte more, with the NUL, needs twice the capacity.
grows :
    eb_c small_memory b'b' (record full { text = replicate 2 b'a'; cap = 3 })
    ≡ some (record { text = codes "aab"; cap = 6; failed = false })
unfolding eb_c eb_put eb_reserve doubled
grows = refl

refused : eb_put small_memory (replicate 1024 b'a') full ≡ some (record full { failed = true })
unfolding eb_put eb_reserve doubled
refused = refl

eb_put-IsPut_example :
    (b' : Ebuf) × (eb_put small_memory (codes "ab") full ≡ some b')
    × IsPut small_memory (codes "ab") full b'
eb_put-IsPut_example = eb_put-IsPut small_memory (codes "ab") full (ground arith)

eb_c-eb_put_example :
    (eb_c small_memory b'b' full ≡ eb_put small_memory (codes "b") full)
    × (eb_sep2 small_memory full ≡ eb_put small_memory (codes ", ") full)
eb_c-eb_put_example = eb_c-eb_put small_memory b'b' full
