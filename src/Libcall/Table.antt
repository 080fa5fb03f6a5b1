-- ===== src/Libcall/Table.antt =====
-- The table of library calls in src/libcall.c, its two lookups, and the opcode that uses it.
use sin.Interpret.Code.{byte_at}
use sin.Interpret.Machine.{Machine}
use sin.Libcall.Net.{lc_net_input, lc_net_write}
use sin.Libcall.Strings.{lc_str_capitalise, lc_str_upper, lc_str_lower}
use sin.Libcall.Sys.{lc_sys_backup, lc_sys_log, lc_sys_shutdown, lc_sys_abort}
use sin.Libcall.Tasks.{lc_task_newgametask, lc_task_killtask}
use sin.Outcome.{Outcome, ok, ◌>>=◌}
use sin.Prelude.{
  ℕ, suc, get_elem?, ◌+◌, ◌≡◌, refl, Option, none, some, List, [], ◌∷◌, ◌==◌, ◌&&◌, if◌then◌else◌,
  Bytes, codes, str_eq, str_eq→eq, Bool-cases, inl, inr, arith,
}

abbrev pub Func : Type 0
Func = ℕ → Machine → Outcome (ℕ × Machine)

-- `LIBCALL_t`
pub record Libcall : Type 0 where
  pub libname : Bytes
  pub callname : Bytes
  pub lib_index : ℕ
  pub call_index : ℕ
  pub args : ℕ
  pub func : Func

abbrev pub libcall : Bytes → Bytes → ℕ → ℕ → ℕ → Func → Libcall
libcall libname callname lib_index call_index args func = record {
  libname = libname;
  callname = callname;
  lib_index = lib_index;
  call_index = call_index;
  args = args;
  func = func;
}

-- The end marker is the end of the list.
abbrev pub libcalls : List Libcall
libcalls =
    libcall (codes "sys") (codes "backup") 1 0 0 lc_sys_backup
    ∷ libcall (codes "sys") (codes "log") 1 1 1 lc_sys_log
    ∷ libcall (codes "sys") (codes "shutdown") 1 2 0 lc_sys_shutdown
    ∷ libcall (codes "sys") (codes "abort") 1 3 0 lc_sys_abort
    ∷ libcall (codes "task") (codes "newgametask") 2 0 3 lc_task_newgametask
    ∷ libcall (codes "task") (codes "killtask") 2 1 1 lc_task_killtask
    ∷ libcall (codes "net") (codes "input") 3 0 0 lc_net_input
    ∷ libcall (codes "net") (codes "write") 3 1 2 lc_net_write
    ∷ libcall (codes "str") (codes "capitalise") 4 0 1 lc_str_capitalise
    ∷ libcall (codes "str") (codes "upper") 4 1 1 lc_str_upper
    ∷ libcall (codes "str") (codes "lower") 4 2 1 lc_str_lower
    ∷ []

abbrev pub lookup_in : List Libcall → Bytes → Bytes → Option (ℕ × ℕ × ℕ)
lookup_in [] libname callname = none
lookup_in (c ∷ cs) libname callname =
    if str_eq c.libname libname && str_eq c.callname callname
    then some (c.lib_index, c.call_index, c.args)
    else lookup_in cs libname callname

-- The indices of a call and the number of its arguments.
unfoldable pub libcall_lookup : Bytes → Bytes → Option (ℕ × ℕ × ℕ)
libcall_lookup libname callname = lookup_in libcalls libname callname

abbrev pub func_in : List Libcall → ℕ → ℕ → Option Func
func_in [] lib call = none
func_in (c ∷ cs) lib call =
    if c.lib_index == lib && c.call_index == call then some c.func else func_in cs lib call

unfoldable pub libcall_func : ℕ → ℕ → Option Func
libcall_func lib call = func_in libcalls lib call

-- A call that is not in the table is logged, and leaves no value.
abbrev pub call_func : Option Func → Func
call_func none nextop m = ok (nextop, m)
call_func (some f) nextop m = f nextop m

unfoldable pub op_libcall : Bytes → ℕ → Machine → Outcome (ℕ × Machine)
unfolding byte_at
op_libcall code nextop m = do
  lib ← byte_at code nextop
  func ← byte_at code (nextop + 1)
  call_func (libcall_func lib func) (nextop + 2) m

-- The entry of the table that has these names.
pub record Named (libname callname : Bytes) (i j n : ℕ) (c : Libcall) : Type 0 where
  pub lib : c.libname ≡ libname
  pub call : c.callname ≡ callname
  pub lib_index : c.lib_index ≡ i
  pub call_index : c.call_index ≡ j
  pub args : c.args ≡ n

-- The entry at place `k` of the table has the names, the indices and the number of arguments, and its
-- function is the one that is found by the indices.
pub record Entered (cs : List Libcall) (libname callname : Bytes) (i j n : ℕ) : Type 0 where
  pub k : ℕ
  pub entry : Libcall
  pub at : get_elem? cs k ≡ some entry
  pub named : Named libname callname i j n entry
  pub func : libcall_func i j ≡ some entry.func

-- The indices of every entry lead to its function.
abbrev AreFound : List Libcall → Type 0
AreFound [] = Unit {0}
AreFound (c ∷ cs) = (libcall_func c.lib_index c.call_index ≡ some c.func) × AreFound cs

libcalls-AreFound : AreFound libcalls
unfolding libcall_func
libcalls-AreFound =
    (refl, (refl, (refl, (refl, (refl, (refl, (refl, (refl, (refl, (refl, (refl, tt)))))))))))

later :
    {c : Libcall} {cs : List Libcall} {l d : Bytes} {i j n : ℕ}
    → Entered cs l d i j n
    → Entered (c ∷ cs) l d i j n
later e = record { k = suc e.k; entry = e.entry; at = e.at; named = e.named; func = e.func }

lookup_in-Entered :
    (cs : List Libcall) (l d : Bytes) (i j n : ℕ)
    → AreFound cs
    → lookup_in cs l d ≡ some (i, j, n)
    → Entered cs l d i j n
lookup_in-Entered [] l d i j n found e = absurd cc
lookup_in-Entered (c ∷ cs) l d i j n (here, there) e =
    elim (Bool-cases (str_eq c.libname l && str_eq c.callname d)) [
      | inl same ↦
          let q : ◌≡◌ {A = Option (ℕ × ℕ × ℕ)} (some (c.lib_index, c.call_index, c.args))
              (some (i, j, n)) =
            rw same at e in
          let ei : c.lib_index ≡ i = cc in
          let ej : c.call_index ≡ j = cc in
          let en : c.args ≡ n = cc in
          record {
            k = 0;
            entry = c;
            at = refl;
            named = record {
              lib = str_eq→eq c.libname l (ground arith);
              call = str_eq→eq c.callname d (ground arith);
              lib_index = ei;
              call_index = ej;
              args = en;
            };
            func = rw (← ei, ← ej) here;
          }
      | inr other ↦ later (lookup_in-Entered cs l d i j n there (rw other at e))
    ]

-- What the compiler finds by the names of a call is what the interpreter runs by its indices: the two
-- lookups find one entry of the table.
pub libcall_func-libcall_lookup :
    (libname callname : Bytes) (i j n : ℕ)
    → libcall_lookup libname callname ≡ some (i, j, n)
    → Entered libcalls libname callname i j n
unfolding libcall_lookup
libcall_func-libcall_lookup libname callname i j n e =
    lookup_in-Entered libcalls libname callname i j n libcalls-AreFound e
