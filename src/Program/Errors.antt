-- ===== src/Program/Errors.antt =====
-- program_stop of src/program.c, and where src/error.c says that an error is.
use simbly.Prelude.{
  ℕ, ◌+◌, ◌-◌, ◌%◌, Bool, true, false, [], ◌∷◌, ◌++◌, u32_mod, ◌==◌, if◌then◌else◌,
}
use simbly.Program.Defs.{finished, Reader, Message}

-- The position that err_msg, warn_msg and dbg_msg print: the character before the current one.
abbrev pub error_line : Reader → ℕ
error_line r = if r.column == 1 then (r.line + u32_mod - 1) % u32_mod else r.line

abbrev pub error_column : Reader → ℕ
error_column r = if r.column == 1 then r.prev_col else (r.column + u32_mod - 1) % u32_mod

abbrev pub report : Bool → Message → Reader → Reader
report is_error m r = record r {
  messages =
      r.messages
      ++ (record {
        is_error = is_error;
        at_line = error_line r;
        at_column = error_column r;
        message = m;
      }
          ∷ []);
}

abbrev pub err_msg : Message → Reader → Reader
err_msg = report true

abbrev pub warn_msg : Message → Reader → Reader
warn_msg = report false

abbrev pub program_stop : Bool → Reader → Reader
program_stop err r = record r { state = finished; error_flag = if err then true else r.error_flag }

-- `program_stop(prog, 1); err_msg(prog, …);`, as the sources write it everywhere.
abbrev pub stop_with : Message → Reader → Reader
stop_with m r = err_msg m (program_stop true r)
