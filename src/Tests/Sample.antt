-- ===== src/Tests/Sample.antt =====
-- A host that does little, an empty heap, and a process on them.
use gescript.Base.{ℕ, List, [], codes, none}
use gescript.Types.Value.{DataType, nil}
use gescript.Types.Convert.{Strconv}
use gescript.Engine.Code.{Function, OpCode}
use gescript.Engine.Heap.{Heap}
use gescript.Engine.Process.{Process, new_process, return_err, native_error}
use gescript.Engine.Host.{Host}

abbrev pub plain_strconv : Strconv
plain_strconv = record { format_float = λ f. []; parse_float = λ s. none; trim_space = λ s. s }

abbrev pub plain_host : Host
plain_host = record {
  strconv = plain_strconv;
  range_order = λ ks. ks;
  call_native = λ n args. return_err (native_error []);
  resolve_member = λ n v name h. (nil, h);
}

abbrev pub no_heap : Heap
no_heap = record {
  arrays = [];
  objects = [];
  cells = [];
  functions = [];
  natives = [];
  methods = [];
  constructors = [];
  bounds = [];
}

abbrev pub body_of : List OpCode → ℕ → Function
body_of code n = record { name = codes "_"; code = code; var_count = n }

-- As RunWithContext makes it.
abbrev pub fresh : Function → Heap → Process
fresh body heap = new_process 256 [] [] [] body heap

-- A process with a stack of four slots that holds these values, the top first.
abbrev pub with_stack : List DataType → ℕ → Process
with_stack slots n = record (fresh (body_of [] 0) no_heap) { stack = slots; sp = n }
