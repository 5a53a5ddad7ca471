-- ===== src/Web.antt =====
-- What the handlers (www/handlers) and the helpers read and write of a request's context.
--
-- The fiber library is the record `Fiber`: the headers of a response are an abstract type with `Set` and
-- `Del`, a `Write` may fail, and `JSON` writes what `marshal` gives. A reply has the status 200 and an
-- empty body to begin with.
use lod.Prelude.{ℕ, List, [], ◌++◌, Bool, Option, none, some}
use lod.Prelude.Int.{ℤ}
use lod.Prelude.Text.{Text, codes}

-- A value of JSON, by the tags of a struct.
mutual
  pub data Value : Type 0 where
    text : Text → Value
    number : ℤ → Value
    flag : Bool → Value
    null : Value
    array : Values → Value
    object : Members → Value

  pub data Values : Type 0 where
    end : Values
    item : Value → Values → Values

  pub data Members : Type 0 where
    close : Members
    member : Text → Value → Members → Members

-- The values that the handlers write as JSON: maps of texts, the counts of a job, statistics, and structs. A
-- quotient of floats is kept as its two parts; the statistics that are always 0 are left out.
pub data Json : Type 0 where
  struct : Value → Json
  fields : List (Text × Text) → Json
  counts : ℕ → ℕ → Text → Json
  stats : ℕ → ℕ → ℕ → ℕ × ℕ → Json

pub record Fiber : Type 1 where
  pub Headers : Type 0
  pub set_header : Text → Text → Headers → Headers
  pub del_header : Text → Headers → Headers
  pub write_error : List ℕ → Option Text
  pub marshal : Json → List ℕ

pub record Reply (f : Fiber) : Type 0 where
  pub status : ℕ
  pub body : List ℕ
  pub headers : f.Headers

module _ {f : Fiber} where
  -- `ctx.Status(code).SendString("")`
  abbrev pub send_empty : ℕ → Reply f → Reply f
  send_empty code r = record r { status = code; body = [] }

  -- `ctx.JSON(value)`, which keeps the status.
  abbrev pub send_json : Json → Reply f → Reply f
  send_json value r = record r {
    body = f.marshal value;
    headers = f.set_header (codes "Content-Type") (codes "application/json") r.headers;
  }

  -- `ctx.Status(code).JSON(value)`
  abbrev pub send_status : ℕ → Json → Reply f → Reply f
  send_status code value r = send_json value (record r { status = code })

  abbrev pub written : List ℕ → Reply f → Option Text → Reply f × Option Text
  written bytes r none = (record r { body = r.body ++ bytes }, none)
  written bytes r (some e) = (r, some e)

  -- `ctx.Write(bytes)`, with its error.
  abbrev pub write : List ℕ → Reply f → Reply f × Option Text
  write bytes r = written bytes r (f.write_error bytes)
