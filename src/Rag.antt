-- ===== src/Rag.antt =====
-- Memory: the chunking of documents (bat/services/rag/chunking.py), the vector stores of
-- bat/adapters/vector_memory.py and bat/adapters/vector_chroma.py, the embedder of
-- bat/adapters/llama_cpp_embedder.py and the pipeline of bat/services/rag/pipeline.py.
pub mod Chunking
pub mod Vectors
pub mod Bounds
pub mod Pipeline
pub mod Isolation
pub mod Context
pub mod Embedder
pub mod Chroma
pub mod Stored
pub mod Collections
