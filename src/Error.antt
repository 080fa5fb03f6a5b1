-- ===== src/Error.antt =====
-- src/error.h and src/error.c: the error codes and their messages.
use sin.Prelude.{ℕ, Option, none, some, ◌==◌, if◌then◌else◌, Bytes, List, [], ◌∷◌, codes}

abbrev pub err_noerror : ℕ
err_noerror = 0

abbrev pub err_comp_syntax : ℕ
err_comp_syntax = 1

abbrev pub err_comp_maxdepth : ℕ
err_comp_maxdepth = 2

abbrev pub err_comp_toomanylocals : ℕ
err_comp_toomanylocals = 3

abbrev pub err_comp_localbeforedef : ℕ
err_comp_localbeforedef = 4

abbrev pub err_comp_unknownchar : ℕ
err_comp_unknownchar = 5

abbrev pub err_comp_unknownlib : ℕ
err_comp_unknownlib = 6

abbrev pub err_comp_wrongargs : ℕ
err_comp_wrongargs = 7

abbrev pub err_comp_inuse : ℕ
err_comp_inuse = 8

abbrev pub err_runtime_sigusr1 : ℕ
err_runtime_sigusr1 = 20

abbrev pub err_runtime_invalidargs : ℕ
err_runtime_invalidargs = 21

abbrev pub err_runtime_nosuchitem : ℕ
err_runtime_nosuchitem = 22

-- What `init_errmsg` sets; the other entries stay NULL.
unfoldable pub init_errmsg : List (ℕ × Bytes)
init_errmsg =
    (err_noerror, codes "No error.")
    ∷ (err_comp_syntax, codes "Syntax error.")
    ∷ (err_comp_maxdepth, codes "Maximum nesting depth reached.")
    ∷ (err_comp_toomanylocals, codes "Too many local variables.")
    ∷ (err_comp_localbeforedef, codes "Local used before definition.")
    ∷ (err_comp_unknownchar, codes "Unknown character in input.")
    ∷ (err_comp_unknownlib, codes "Unknown library call.")
    ∷ (err_comp_wrongargs, codes "Wrong number of arguments to library call.")
    ∷ (err_comp_inuse, codes "Item in use; cannot replace it.")
    ∷ (err_runtime_sigusr1, codes "Restarting due to SIGUSR1.")
    ∷ (err_runtime_invalidargs, codes "Invalid arguments to library call.")
    ∷ (err_runtime_nosuchitem, codes "Item does not exist.")
    ∷ []

abbrev pub errmsg_in : List (ℕ × Bytes) → ℕ → Option Bytes
errmsg_in [] errnum = none
errmsg_in ((n, msg) ∷ rest) errnum = if n == errnum then some msg else errmsg_in rest errnum

-- `errmsg[errnum]`
unfoldable pub errmsg : ℕ → Option Bytes
unfolding init_errmsg
errmsg errnum = errmsg_in init_errmsg errnum
