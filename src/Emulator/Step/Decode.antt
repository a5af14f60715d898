-- ===== src/Emulator/Step/Decode.antt =====
-- The fields of an instruction word that `step` of tools/rv32emu_core.c reads, `width_of`,
-- `floating_instruction`, and the causes of traps.
use tiny_processors.Prelude.{
  ℕ, ◌-◌, ◌*◌, ◌/◌, ◌^◌, Bool, ◌&&◌, ◌||◌, ltb, leb, ◌==◌, ◌!=◌, if◌then◌else◌, bit_and, bit_or,
}
use tiny_processors.Emulator.Access.{Access, acc_ok, acc_fault, acc_misaligned, acc_page_fault}

abbrev pub cause_fetch_misaligned : ℕ
cause_fetch_misaligned = 0

abbrev pub cause_fetch_fault : ℕ
cause_fetch_fault = 1

abbrev pub cause_illegal : ℕ
cause_illegal = 2

abbrev pub cause_breakpoint : ℕ
cause_breakpoint = 3

abbrev pub cause_load_misaligned : ℕ
cause_load_misaligned = 4

abbrev pub cause_load_fault : ℕ
cause_load_fault = 5

abbrev pub cause_store_misaligned : ℕ
cause_store_misaligned = 6

abbrev pub cause_store_fault : ℕ
cause_store_fault = 7

abbrev pub cause_ecall_u : ℕ
cause_ecall_u = 8

abbrev pub cause_ecall_s : ℕ
cause_ecall_s = 9

abbrev pub cause_ecall_m : ℕ
cause_ecall_m = 11

abbrev pub cause_fetch_page_fault : ℕ
cause_fetch_page_fault = 12

abbrev pub cause_load_page_fault : ℕ
cause_load_page_fault = 13

abbrev pub cause_store_page_fault : ℕ
cause_store_page_fault = 15

pub load_cause {ℓ} : {A : Type ℓ} → Access A → ℕ
load_cause acc_misaligned = cause_load_misaligned
load_cause acc_page_fault = cause_load_page_fault
load_cause acc_fault = cause_load_fault
load_cause (acc_ok a) = cause_load_fault

pub store_cause {ℓ} : {A : Type ℓ} → Access A → ℕ
store_cause acc_misaligned = cause_store_misaligned
store_cause acc_page_fault = cause_store_page_fault
store_cause acc_fault = cause_store_fault
store_cause (acc_ok a) = cause_store_fault

-- `(uint32_t)((int32_t)x >> k)`
unfoldable pub sra : ℕ → ℕ → ℕ
sra x k = if ltb x (2 ^ 31) then x / 2 ^ k else 2 ^ 32 - 1 - (2 ^ 32 - 1 - x) / 2 ^ k

pub rd_of : ℕ → ℕ
rd_of word = bit_and (word / 2 ^ 7) 31

pub funct3_of : ℕ → ℕ
funct3_of word = bit_and (word / 2 ^ 12) 7

pub rs1_of : ℕ → ℕ
rs1_of word = bit_and (word / 2 ^ 15) 31

pub rs2_of : ℕ → ℕ
rs2_of word = bit_and (word / 2 ^ 20) 31

pub imm_i : ℕ → ℕ
imm_i word = sra word 20

pub imm_s : ℕ → ℕ
imm_s word = bit_or (sra (bit_and word 0xfe00_0000) 20) (bit_and (word / 2 ^ 7) 0x1f)

pub imm_b : ℕ → ℕ
imm_b word =
    bit_or
      (bit_or (bit_or (sra (bit_and word 0x8000_0000) 19) (bit_and word 0x80 * 2 ^ 4))
        (bit_and (word / 2 ^ 20) 0x7e0))
      (bit_and (word / 2 ^ 7) 0x1e)

pub imm_j : ℕ → ℕ
imm_j word =
    bit_or
      (bit_or (bit_or (sra (bit_and word 0x8000_0000) 11) (bit_and word 0xf_f000))
        (bit_and (word / 2 ^ 9) 0x800))
      (bit_and (word / 2 ^ 20) 0x7fe)

pub width_of : ℕ → ℕ
width_of funct3 = 2 ^ bit_and funct3 3

pub floating_instruction : ℕ → Bool
floating_instruction word =
    let opcode = bit_and word 0x7f in
    let csr = word / 2 ^ 20 in
    opcode == 0x07
    || opcode == 0x27
    || opcode == 0x43
    || opcode == 0x47
    || opcode == 0x4b
    || opcode == 0x4f
    || opcode == 0x53
    || opcode == 0x73 && bit_and (funct3_of word) 3 != 0 && leb 1 csr && leb csr 3
