-- ===== src/Examples/Safety.antt =====
-- Reading bytes that are, and that are not, of the bitcode format.
use llvm_in_rust.Base.{◌≡◌, [], ◌∷◌, ◌++◌}
use llvm_in_rust.Ir.Context.{Context}
use llvm_in_rust.Ir.Module.{Module}
use llvm_in_rust.Bitcode.Stream.{Bytes, write_u32}
use llvm_in_rust.Bitcode.Reads.{Reads}
use llvm_in_rust.Bitcode.Module.{magic, read_bitcode, write_bitcode}
use llvm_in_rust.Bitcode.Module.Laws.{IsRereadContext, IsRereadModule, read_bitcode-write_bitcode}
use llvm_in_rust.Bitcode.Safety.{Outcome}
use llvm_in_rust.Bitcode.Safety.Module.{read_bitcode_total}
use llvm_in_rust.Bitcode.Safety.Header.{read_bitcode_accepts}
use llvm_in_rust.Examples.Bitcode.{stocked, program, stocked-FitsContext, program-FitsModule}

-- A file that ends within its version.
abbrev cut_short : Bytes
cut_short = 76 ∷ 82 ∷ 73 ∷ 82 ∷ 1 ∷ 0 ∷ []

read_bitcode_total_example : Outcome cut_short (read_bitcode cut_short)
read_bitcode_total_example = read_bitcode_total cut_short

written :
    (ctx' : Context) × (m' : Module) × Reads read_bitcode (write_bitcode stocked program) (ctx', m')
    × IsRereadContext stocked ctx'
    × IsRereadModule program m'
written = read_bitcode-write_bitcode stocked program stocked-FitsContext program-FitsModule

read_bitcode_accepts_example :
    (rest : Bytes) × (write_bitcode stocked program ++ [] ≡ magic ++ (write_u32 1 ++ rest))
read_bitcode_accepts_example =
    read_bitcode_accepts (write_bitcode stocked program ++ []) ((written.0, written.1), [])
      (written.2.reads [])
