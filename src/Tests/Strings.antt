-- ===== src/Tests/Strings.antt =====
-- A run of the wrapper of `strncpy` on strings of three characters.
use symcc.Common.{arith, ◌+◌, ◌-◌, ◌≡◌, refl, some, inl, leb, if◌then◌else◌}
use symcc.Shadow.Fill.{within}
use symcc.Wrappers.{Process}
use symcc.Wrappers.Copying.{MemoryFunctions, sym_strncpy}
use symcc.Wrappers.Copying.Text.{TextCopied, sym_strncpy-TextCopied}
use symcc.Tests.Toy.{toy}
use symcc.Tests.Shadows.{one_page-BytesIn}
use symcc.Tests.Files.{files, process}

abbrev three : MemoryFunctions files
three = record {
  malloc = λ size memory w. (8192, memory, w);
  calloc = λ nmemb size memory w. (8192, memory, w);
  memcpy = λ dest src n memory w. (dest, memory, w);
  memset = λ s c n memory w. (s, λ a. if within a s n then c else memory a, w);
  memmove = λ dest src n memory w. (dest, memory, w);
  strncpy = λ dest src n memory w.
      (dest, λ a. if within a dest 3 then memory (src + (a - dest)) else memory a, w);
  strnlen = λ s n memory. if leb n 3 then n else 3;
  malloc_site = 81;
  calloc_site = 82;
  strncpy_site = 83;
}

strncpy_example :
    (q : Process toy files) × (sym_strncpy toy files three 4094 4097 6 process ≡ some (4094, q))
    × TextCopied toy process.machine 4094 4097 6 3 q.machine.shadow_pages
strncpy_example =
    sym_strncpy-TextCopied toy files three process 4094 4097 6 3 refl refl refl refl (omega arith)
      (omega arith) (inl (omega arith)) (one_page-BytesIn 4097 3) (one_page-BytesIn 4094 6)
