-- ===== src/Dsp/Sine/Waves.antt =====
-- What `src_sin` of src/core/dsp.c appends to its buffer.
use hiemal.Buffer.{Buffer}
