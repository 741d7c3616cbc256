-- ===== src/Slab.antt =====
-- The slab pages: 64 KiB each, with the metadata at the start and the objects of one size behind it.
pub mod Tiny
pub mod Small
use v8malloc.Prelude.{ℕ, ◌+◌, ◌-◌, ◌*◌, ◌%◌, Bool, true, false, ◌&&◌, not, ◌==◌}
use v8malloc.Words.{invert, bits_and}

-- V8M_PAGE_SIZE
abbrev pub page_size : ℕ
page_size = 65536

-- V8M_SLAB_HEADER_SIZE
abbrev pub slab_header_size : ℕ
slab_header_size = 2048

-- V8M_MAGIC
abbrev pub magic_word : ℕ
magic_word = 0x76386D616C6C6F63

-- `v8m_ptr_to_meta`: the base of the page that holds an address.
unfoldable pub ptr_to_meta : ℕ → ℕ
ptr_to_meta ptr = bits_and 64 ptr (invert 64 (page_size - 1))

-- `v8m_page_meta_valid`, given the magic word that the page holds.
unfoldable pub page_meta_valid : ℕ → ℕ → Bool
page_meta_valid meta magic = not (meta == 0) && (magic == magic_word)
