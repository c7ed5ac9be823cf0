-- ===== src/Executor/Page.antt =====
-- src/executor.cc: a code page and the functions that write to it. The model keeps the page and the
-- index of the next byte together; `std::abort` on a full page is `aborted`.
pub mod Layout
use osiris_arm.Common.{
  ℕ, zero, suc, ◌+◌, ◌-◌, ◌*◌, ◌/◌, Bytes, List, [], ◌∷◌, ◌++◌, ltb, if◌then◌else◌, length, take,
  drop, set, repeat, Outcome, ok, aborted, ◌>>=◌,
}
use osiris_arm.Utils.Bytes.{number_to_bytes_le}

abbrev pub pagesize : ℕ
pagesize = 4096

pub record CodePage : Type 0 where
  pub bytes : Bytes
  pub last_written_index : ℕ

abbrev pub inst_ret : ℕ
inst_ret = 0xD65F03C0

abbrev pub inst_nop : ℕ
inst_nop = 0xD503201F

-- `memcpy(page + index, source, length)`, inside the page
unfoldable pub write_at : ℕ → Bytes → Bytes → Bytes
write_at index source page = take index page ++ (source ++ drop (index + length source) page)

-- a `uint32_t` in the memory of a little-endian machine
abbrev pub word : ℕ → Bytes
word w = number_to_bytes_le w 4

-- The content that InitializeCodePage gives a page: NOPs, and RET as the last word.
unfoldable pub nop_sled : Bytes
unfolding repeat write_at number_to_bytes_le
nop_sled =
    let num_nops = pagesize / 4 in
    write_at ((num_nops - 1) * 4) (word inst_ret) (repeat num_nops (word inst_nop))

-- InitializeCodePage overwrites the whole page and the index.
unfoldable pub initialize_code_page : CodePage → CodePage
unfolding nop_sled
initialize_code_page page = record { bytes = nop_sled; last_written_index = 0 }

-- AddInstructionToCodePage on a character array
unfoldable pub add_instruction_to_code_page : Bytes → CodePage → Outcome CodePage
unfolding write_at
add_instruction_to_code_page instruction page =
    if ltb (page.last_written_index + length instruction) pagesize
    then ok (record {
      bytes = write_at page.last_written_index instruction page.bytes;
      last_written_index = page.last_written_index + length instruction;
    })
    else aborted

-- the `for` of the overload
unfoldable pub write_loop : Bytes → ℕ → Bytes → Bytes
write_loop [] new_page_idx page = page
write_loop (b ∷ bs) new_page_idx page = write_loop bs (new_page_idx + 1) (set page new_page_idx b)

-- AddInstructionToCodePage on a byte array
unfoldable pub add_bytes_to_code_page : Bytes → CodePage → Outcome CodePage
unfolding write_loop
add_bytes_to_code_page instruction page =
    if ltb (page.last_written_index + length instruction) pagesize
    then ok (record {
      bytes = write_loop instruction page.last_written_index page.bytes;
      last_written_index = page.last_written_index + length instruction;
    })
    else aborted

-- several calls one after the other
unfoldable pub add_all : List Bytes → CodePage → Outcome CodePage
unfolding add_instruction_to_code_page
add_all [] page = ok page
add_all (i ∷ is) page = do next ← add_instruction_to_code_page i page; add_all is next

-- `for (int i = 0; i < amount; i++)` over the overload for byte arrays
unfoldable pub add_repeated : ℕ → Bytes → CodePage → Outcome CodePage
unfolding add_bytes_to_code_page
add_repeated zero sequence page = ok page
add_repeated (suc amount) sequence page = do
  next ← add_bytes_to_code_page sequence page
  add_repeated amount sequence next
